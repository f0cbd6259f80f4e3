-- ===== src/Logger.antt =====
-- logger.c: the two loggers, which the library's messages go to, and the setters that replace them.
pub mod Text
pub mod Print
mod Tests
use ice9_api.Prelude.{
  ℕ, zero, suc, ◌+◌, ◌-◌, ◌^◌, Option, none, some, List, [], ◌∷◌, ◌++◌, ℤ, pos, negsuc, ltb, ◌==◌,
  if◌then◌else◌, Memory,
}

-- A function that the caller has set, or the one of logger.c.
pub data Logger : Type 0 where
  built_in : Logger
  callers : ℕ → Logger

-- `ice9_info_logger` and `ice9_error_logger`.
pub record Loggers : Type 0 where
  pub info_logger : Logger
  pub error_logger : Logger

-- What is done: the lock is taken or released, a text goes to the standard output or to the
-- standard error, or the caller's logger gets a message, after that of the place if it is an error.
pub data LogCall (Message : Type 0) : Type 0 where
  lock unlock : LogCall Message
  printf fprintf : List ℕ → LogCall Message
  vfprintf : Message → LogCall Message
  call_logger : ℕ → List Message → LogCall Message

abbrev pub buf_size : ℕ
buf_size = 256

-- The string in a block, up to its first 0; `none` if there is no 0 among the first `n` bytes.
abbrev pub c_string : (n : ℕ) → Memory → ℕ → Option (List ℕ)
c_string zero buf i = none
c_string (suc n) buf i =
    let rest = c_string n buf (i + 1) in
    if buf i == 0 then some [] else elim rest [ none ↦ none | some bytes ↦ some (buf i ∷ bytes) ]

-- `buf[sizeof(buf)-1] = '\0'`
abbrev pub end_buf : Memory → Memory
end_buf buf i = if i == buf_size - 1 then 0 else buf i

-- An `int` where a `size_t` is wanted.
abbrev pub as_size : ℤ → ℕ
as_size (pos n) = n
as_size (negsuc n) = 2 ^ 64 - (n + 1)

-- A message is a format with its arguments; `vsnprintf` gets the size of the block, the message and
-- the block, and gives its value and the block as it is afterwards. `snprintf` is taken as the
-- same.
module _ {Message : Type 0} (vsnprintf : ℕ → Message → Memory → ℤ × Memory) where
  -- `buf` is what happens to be in the block; `none` is a read past its end.
  pub ice9_log_info : Message → Memory → Option (List (LogCall Message))
  ice9_log_info message buf =
      elim (c_string buf_size (end_buf (vsnprintf buf_size message buf).1) 0) [
        | none ↦ none
        | some text ↦ some (lock ∷ printf text ∷ unlock ∷ [])
      ]

  -- `place` is the message of the file and the line. The list of arguments has been gone through by
  -- `vfprintf` when `vsnprintf` gets it, so C leaves open what the latter takes for the arguments:
  -- `again` is the message with these.
  pub ice9_log_error : (place message again : Message) → Memory → Option (List (LogCall Message))
  ice9_log_error place message again buf =
      let (nwritten, buf') = vsnprintf buf_size place buf in
      let fits = ltb (as_size nwritten) (buf_size - 1) in
      let buf'' = if fits then (vsnprintf (buf_size - as_size nwritten) again buf').1 else buf' in
      elim (c_string buf_size (end_buf buf'') 0) [
        | none ↦ none
        | some text ↦
            some ((if fits then vfprintf message ∷ [] else []) ++ lock ∷ fprintf text ∷ unlock ∷ [])
      ]

  -- `LOG_INFO` and `LOG_ERROR`
  pub log_info : Loggers → Message → Memory → Option (List (LogCall Message))
  log_info l message buf = elim l.info_logger [
    | built_in ↦ ice9_log_info message buf
    | callers f ↦ some (call_logger f (message ∷ []) ∷ [])
  ]

  pub log_error :
      Loggers → (place message again : Message) → Memory → Option (List (LogCall Message))
  log_error l place message again buf = elim l.error_logger [
    | built_in ↦ ice9_log_error place message again buf
    | callers f ↦ some (call_logger f (place ∷ message ∷ []) ∷ [])
  ]

pub ice9_set_info_logger : {Message : Type 0} → Logger → Loggers → List (LogCall Message) × Loggers
ice9_set_info_logger f l = (lock ∷ unlock ∷ [], record l { info_logger = f })

pub ice9_set_error_logger : {Message : Type 0} → Logger → Loggers → List (LogCall Message) × Loggers
ice9_set_error_logger f l = (lock ∷ unlock ∷ [], record l { error_logger = f })
