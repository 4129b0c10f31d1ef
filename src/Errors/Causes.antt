-- ===== src/Errors/Causes.antt =====
-- Errors inside errors: New, Wrap, Errorf, WithMessage, GetError and CreateError of util/errors/errors.go.
-- `Cause` of github.com/pkg/errors is a parameter; a generated ID is an argument.
use fabric_snaps.Common.{String, ◌≡◌, refl, Option, none, some}
use fabric_snaps.Errors.{ErrorCode}

-- A Go error: a text, an error of pkg/errors with a message around another one, or a `customError`, which is
-- an `Error` and has a cause.
pub data GoError : Type 0 where
  plain : String → GoError
  wrapped : String → GoError → GoError
  custom : ErrorCode → String → GoError → GoError

-- `New` and `Errorf`, on the text of the message
unfoldable pub new : ErrorCode → String → String → GoError
new code error_id msg = custom code error_id (plain msg)

-- `Wrap`, `Wrapf` and `WithMessage`
unfoldable pub with_message : ErrorCode → String → GoError → String → GoError
with_message code error_id err msg = custom code error_id (wrapped msg err)

-- `err.(Error)`
abbrev pub as_error : GoError → Option GoError
as_error (plain msg) = none
as_error (wrapped msg e) = none
as_error (custom code error_id e) = some (custom code error_id e)

-- `Cause` is documented to go on to an error that has no cause.
abbrev pub HasNoCause : GoError → Type 0
HasNoCause (plain msg) = Unit
HasNoCause (wrapped msg e) = ⊥
HasNoCause (custom code error_id e) = ⊥

no_cause-as_error : (e : GoError) → HasNoCause e → as_error e ≡ none
no_cause-as_error (plain msg) h = refl
no_cause-as_error (wrapped msg e) h = absurd h
no_cause-as_error (custom code error_id e) h = absurd h

module _ (cause : GoError → GoError) where
  -- `GetError`
  unfoldable pub get_error : GoError → Option GoError
  get_error e = elim (as_error e) [ some s ↦ some s | none ↦ as_error (cause e) ]

  -- `CreateError`
  unfoldable pub create_error : GoError → ErrorCode → String → String → GoError
  create_error err code error_id msg = elim (get_error err) [
    | some s ↦ s
    | none ↦ with_message code error_id err msg
  ]

  -- An `Error` inside another error is never found, since `Cause` goes on to the error inside it, and
  -- CreateError gives its code up for the code that it is called with.
  pub create_error-wrapped :
      ((e : GoError) → HasNoCause (cause e))
      → (outer msg error_id : String) (code : ErrorCode) (e : GoError)
      → (get_error (wrapped outer e) ≡ none)
        × (create_error (wrapped outer e) code error_id msg
            ≡ with_message code error_id (wrapped outer e) msg)
  unfolding get_error create_error
  create_error-wrapped roots outer msg error_id code e =
      let n = no_cause-as_error (cause (wrapped outer e)) (roots (wrapped outer e)) in
      (rw (get_error, n) refl, rw (create_error, get_error, n) refl)
