-- ===== src/Host/Keeps.antt =====
-- What programs on the handle keep, one rule for each way to build a program.
use ice9_api.Prelude.{
  ◌≡◌, Bool, true, false, List, [], ◌∷◌, Outcome, done, exited, blocked, fault, pure, ◌>>=◌, ◌>>◌,
  if◌then◌else◌, ◌⊎◌,
}
use ice9_api.ErrorCode.{Ice9Error}
use ice9_api.Ring.Contents.{IsValid}
use ice9_api.Host.{Host, UsbReply, UsbCall, Api, usb_call, usb_do, set_ecode, lib_try, is_ok}

abbrev pub AllReplies {ℓ} : (UsbReply → Type ℓ) → List UsbReply → Type ℓ
AllReplies P [] = Unit
AllReplies P (r ∷ rs) = P r × AllReplies P rs

abbrev pub IsValidHost : Host → Type 0
IsValidHost h = IsValid h.handle.ring

-- The ring buffer is valid, and `d` tells whether the pointer to the open device is there.
abbrev pub Holds : Bool → Host → Type 0
Holds d h = IsValidHost h × (h.handle.device ≡ d)

abbrev pub AnyReply : (UsbReply → Type 0) → List UsbReply → Type 0
AnyReply P [] = ⊥
AnyReply P (r ∷ rs) = P r ⊎ AnyReply P rs

pub AllReplies-any : (rs : List UsbReply) → AllReplies (λ r. Unit {0}) rs
AllReplies-any [] = tt
AllReplies-any (r ∷ rs) = (tt, AllReplies-any rs)

-- A run returns, or waits for a reply, with these still so, and with replies of the same kind
-- left: it does nothing that C leaves undefined, and does not call `exit`.
abbrev pub EndsWell : {A : Type 0} → Bool → (UsbReply → Type 0) → Outcome UsbReply Host A → Type 0
EndsWell d Fits (done a rs h) = Holds d h × AllReplies Fits rs
EndsWell d Fits (exited rs h) = ⊥
EndsWell d Fits (blocked h) = Holds d h
EndsWell d Fits fault = ⊥

-- The same, but what C leaves undefined may be done if there is `Excuse` for it.
abbrev pub EndsUnless :
    {A : Type 0} → Bool → (UsbReply → Type 0) → Type 0 → Outcome UsbReply Host A → Type 0
EndsUnless d Fits Excuse (done a rs h) = Holds d h × AllReplies Fits rs
EndsUnless d Fits Excuse (exited rs h) = ⊥
EndsUnless d Fits Excuse (blocked h) = Holds d h
EndsUnless d Fits Excuse fault = Excuse

-- With replies that fit, `m` keeps these.
pub record Keeps {A : Type 0} (d : Bool) (Fits : UsbReply → Type 0) (m : Api A) : Type 0 where
  pub at :
      (rs : List UsbReply) (h : Host) → Holds d h → AllReplies Fits rs → EndsWell d Fits (m rs h)

module _ {A : Type 0} (d : Bool) (Fits : UsbReply → Type 0) where
  pub EndsUnless-widen :
      {E F : Type 0} (o : Outcome UsbReply Host A)
      → (E → F)
      → EndsUnless d Fits E o
      → EndsUnless d Fits F o
  EndsUnless-widen (done a rs h) f e = e
  EndsUnless-widen (exited rs h) f e = e
  EndsUnless-widen (blocked h) f e = e
  EndsUnless-widen fault f e = f e

  pub EndsWell-unless :
      {E : Type 0} (o : Outcome UsbReply Host A) → ¬ E → EndsUnless d Fits E o → EndsWell d Fits o
  EndsWell-unless (done a rs h) f e = e
  EndsWell-unless (exited rs h) f e = e
  EndsWell-unless (blocked h) f e = e
  EndsWell-unless fault f e = f e

  -- Whatever replies are left.
  pub EndsUnless-any :
      (E : Type 0) (o : Outcome UsbReply Host A)
      → EndsUnless d Fits E o
      → EndsUnless d (λ r. Unit) E o
  EndsUnless-any E (done a rs h) e = (e.0, AllReplies-any rs)
  EndsUnless-any E (exited rs h) e = e
  EndsUnless-any E (blocked h) e = e
  EndsUnless-any E fault e = e

  pub EndsUnless-well :
      (o : Outcome UsbReply Host A) → EndsWell d Fits o → EndsUnless d (λ r. Unit) ⊥ o
  EndsUnless-well (done a rs h) e = (e.0, AllReplies-any rs)
  EndsUnless-well (exited rs h) e = e
  EndsUnless-well (blocked h) e = e
  EndsUnless-well fault e = e

module _ {A : Type 0} {d : Bool} {Fits : UsbReply → Type 0} where
  pub Keeps-pure : (a : A) → Keeps d Fits (pure a)
  Keeps-pure a = record { at = λ rs h v good. (v, good) }

  pub Keeps-if :
      (b : Bool) (m n : Api A) → Keeps d Fits m → Keeps d Fits n → Keeps d Fits (if b then m else n)
  Keeps-if true m n km kn = km
  Keeps-if false m n km kn = kn

module _ {d : Bool} {Fits : UsbReply → Type 0} where
  pub Keeps-usb_call : (c : UsbCall) → Keeps d Fits (usb_call c)
  Keeps-usb_call c = record { at = ends }
    where
      ends :
          (rs : List UsbReply) (h : Host)
          → Holds d h
          → AllReplies Fits rs
          → EndsWell d Fits (usb_call c rs h)
      ends [] h v good = v
      ends (r ∷ rs) h v good = (v, good.1)

  pub Keeps-usb_do : (c : UsbCall) → Keeps d Fits (usb_do c)
  Keeps-usb_do c = record { at = λ rs h v good. (v, good) }

  pub Keeps-set_ecode : (e : Ice9Error) → Keeps d Fits (set_ecode e)
  Keeps-set_ecode e = record { at = λ rs h v good. (v, good) }

module _ {A B : Type 0} {d : Bool} {Fits : UsbReply → Type 0} where
  then_ends :
      (o : Outcome UsbReply Host A) (f : A → Api B)
      → EndsWell d Fits o
      → ((a : A) → Keeps d Fits (f a))
      → EndsWell d Fits (elim o [
        | done a rs h ↦ f a rs h
        | exited rs h ↦ exited rs h
        | blocked h ↦ blocked h
        | fault ↦ fault
      ])
  then_ends (done a rs h) f e kf = (kf a).at rs h e.0 e.1
  then_ends (exited rs h) f e kf = absurd e
  then_ends (blocked h) f e kf = e
  then_ends fault f e kf = e

  pub Keeps-bind :
      (m : Api A) (f : A → Api B)
      → Keeps d Fits m
      → ((a : A) → Keeps d Fits (f a))
      → Keeps d Fits (m >>= f)
  Keeps-bind m f km kf = record { at = λ rs h v good. then_ends (m rs h) f (km.at rs h v good) kf }

pub Keeps-lib_try :
    {A : Type 0} {d : Bool} {Fits : UsbReply → Type 0} (x : Api Ice9Error) (early : Ice9Error → A)
    (rest : Api A)
    → Keeps d Fits x
    → Keeps d Fits rest
    → Keeps d Fits (lib_try x early rest)
Keeps-lib_try x early rest kx kr =
    Keeps-bind x (λ e. set_ecode e >> (if is_ok e then rest else pure (early e))) kx
      (λ e.
        Keeps-bind (set_ecode e) (λ u. if is_ok e then rest else pure (early e)) (Keeps-set_ecode e)
          (λ u. Keeps-if (is_ok e) rest (pure (early e)) kr (Keeps-pure (early e))))

pub ruleset keeps_rules =
    (Keeps-pure, Keeps-if, Keeps-usb_call, Keeps-usb_do, Keeps-set_ecode, Keeps-bind, Keeps-lib_try)
