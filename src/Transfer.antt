-- ===== src/Transfer.antt =====
-- The data of ftdi_stream_ice9.c: `FTDIStreamState`, the transfers, and what libusb and the clock
-- answer to the calls that it makes.
use ice9_api.Prelude.{◌≡◌, ◌⊎◌, inl, inr, refl, ℕ, Bool, List, Option, ℤ, negsuc}

-- `struct timeval`
pub record Timeval : Type 0 where
  pub tv_sec : ℕ
  pub tv_usec : ℕ

-- C's `double`, which only the rates of the progress report are computed in: its operations.
pub record Doubles : Type 1 where
  pub Double : Type 0
  pub of_int : ℤ → Double
  pub of_count : ℕ → Double
  pub micro : Double
  pub one : Double
  pub plus : Double → Double → Double
  pub times : Double → Double → Double
  pub over : Double → Double → Double
  pub at_least : Double → Double → Bool

-- What ftdi.h declares for the progress report: a byte count of 64 bits and a time, and the report.
pub record SizeAndTime : Type 0 where
  pub total_bytes : ℕ
  pub time : Timeval

pub record ProgressInfo (Double : Type 0) : Type 0 where
  pub first : SizeAndTime
  pub prev : SizeAndTime
  pub current : SizeAndTime
  pub total_time : Double
  pub total_rate : Double
  pub current_rate : Double

-- The caller's callback on the caller's data: it gets the bytes that the pointer points to, as
-- many as the length says, the length, and the report if there is one. `none` is what C leaves
-- undefined.
abbrev pub Callback : Type 0 → Type 0 → Type 0
Callback User Double = List ℕ → ℤ → Option (ProgressInfo Double) → User → Option (ℤ × User)

-- `FTDIStreamState`, but for the callback, which does not change.
pub record StreamState (User Double : Type 0) : Type 0 where
  pub userdata : User
  pub packetsize : ℕ
  pub activity : ℕ
  pub result : ℤ
  pub progress : ProgressInfo Double

-- A transfer is with libusb, is allocated and not with libusb, or has been freed.
pub data TransferState : Type 0 where
  in_flight idle released : TransferState

-- The stream state, the transfers that are allocated, in their order, and whether the array of
-- pointers to them is.
pub record Run (User Double : Type 0) : Type 0 where
  pub state : StreamState User Double
  pub transfers : List TransferState
  pub array : Bool

-- The status of a transfer, as far as it is looked at.
pub data Status : Type 0 where
  completed other : Status

pub Status-cases : (s : Status) → (s ≡ completed) ⊎ (s ≡ other)
Status-cases completed = inl refl
Status-cases other = inr refl

-- libusb is through with a transfer: its place, its status, the bytes received, and what
-- `libusb_submit_transfer` returns if it is submitted again.
pub record Completion : Type 0 where
  pub place : ℕ
  pub status : Status
  pub bytes : List ℕ
  pub resubmit : ℤ

-- A call of `libusb_handle_events_timeout`: the transfers that it is through with meanwhile, in
-- their order, and its value.
pub record Events : Type 0 where
  pub completions : List Completion
  pub ret : ℤ

-- What a round of the loop gets: the events, those of the second call, if there is one, and the
-- time.
pub record Round : Type 0 where
  pub events : Events
  pub again : Events
  pub now : Timeval

-- What the set-up of one transfer gets: whether `libusb_alloc_transfer` and `malloc` give memory,
-- and what `libusb_submit_transfer` returns.
pub record Setup : Type 0 where
  pub allocated : Bool
  pub buffer : Bool
  pub submit : ℤ

-- The codes of libusb that are used.
abbrev pub libusb_error_io : ℤ
libusb_error_io = negsuc 0

abbrev pub libusb_error_interrupted : ℤ
libusb_error_interrupted = negsuc 9

abbrev pub libusb_error_no_mem : ℤ
libusb_error_no_mem = negsuc 10
