-- ===== src/Client/Wrapper.antt =====
-- The wrapper around the cached clients: transactionsnap/pkg/client/clientwrapper.go. All its methods have
-- one shape: an operation on a client that is acquired before and released after it, once more if its
-- error is retryable. The SDK's lazy cache, Go's regexp and the clients' reference counters are
-- parameters; a wait for a client takes one unit of fuel for each client that is tried.
pub mod Traces
use fabric_snaps.Common.{
  ℕ, zero, suc, String, Bool, true, false, Option, none, some, List, [], ◌∷◌, ◌++◌, if◌then◌else◌,
  ◌⊎◌, inl, inr, ◌||◌,
}
use fabric_snaps.Errors.{general_error}
use fabric_snaps.Errors.Texts.{CustomError, generate_client_error_msg, with_message}

-- An `errors.Error`, or another error with its text.
pub data AnyError : Type 0 where
  coded : CustomError → AnyError
  plain : String → AnyError

-- `retryableErrors`
abbrev pub retryable_errors : List String
retryable_errors =
    "(?i).*sign proposal failed.*" ∷ "(?i).*sign failed.*" ∷ "(?i).*Private key not found.*"
    ∷ "(?i).*Key not found.*" ∷ []

-- The lazy cache gives the reference of the channel, and the reference its client, or an error's text.
pub record Clients (World Ref Client : Type 0) : Type 0 where
  pub get_ref : World → (String ⊎ Ref) × World
  pub get_value : Ref → World → (String ⊎ Client) × World
  pub next_error_id : World → String
  pub acquire : Client → World → Bool × World
  pub release : Client → World → World
  pub delete : World → World
  pub sleep : World → World
  pub match_string : String → String → Bool

-- What a method does, in its order.
pub data Event (Client : Type 0) : Type 0 where
  refused acquired operated released : Client → Event Client
  cleared : Event Client

pub record WrapperState (World Client : Type 0) : Type 0 where
  pub world : World
  pub events : List (Event Client)

-- The result of the wait for a client; `waiting` is a wait that goes on.
pub data Found (Client : Type 0) : Type 0 where
  found : Client → Found Client
  not_found : CustomError → Found Client
  waiting : Found Client

module _ {World Ref Client : Type 0} (clients : Clients World Ref Client) where
  abbrev pub record_event :
      Event Client → World → WrapperState World Client → WrapperState World Client
  record_event e w s = record { world = w; events = s.events ++ e ∷ [] }

  abbrev pub failed_get : String → String → World → CustomError
  failed_get msg text w = with_message general_error (clients.next_error_id w) text msg

  -- `getClient`
  unfoldable pub get_client : World → (CustomError ⊎ Client) × World
  get_client w =
      let (ref, w₁) = clients.get_ref w in
      elim ref [
        | inl text ↦ (inl (failed_get "Got error while getting item from cache" text w₁), w₁)
        | inr r ↦
            let (client, w₂) = clients.get_value r w₁ in
            elim client [
              | inl text ↦ (inl (failed_get "error getting client" text w₂), w₂)
              | inr c ↦ (inr c, w₂)
            ]
      ]

  -- The body of the loop of `get`, for the answers of `getClient` and `Acquire`; the rest of the loop
  -- follows a client that is refused.
  abbrev pub on_acquire :
      (WrapperState World Client → Found Client × WrapperState World Client)
      → Client
      → Bool × World
      → WrapperState World Client
      → Found Client × WrapperState World Client
  on_acquire rest c (true, w) s = (found c, record_event (acquired c) w s)
  on_acquire rest c (false, w) s = rest (record_event (refused c) (clients.sleep w) s)

  abbrev pub on_client :
      (WrapperState World Client → Found Client × WrapperState World Client)
      → (CustomError ⊎ Client) × World
      → WrapperState World Client
      → Found Client × WrapperState World Client
  on_client rest (inl e, w) s = (not_found e, record s { world = w })
  on_client rest (inr c, w) s = on_acquire rest c (clients.acquire c w) s

  -- `get`
  unfoldable pub get : ℕ → WrapperState World Client → Found Client × WrapperState World Client
  get zero s = (waiting, s)
  get (suc n) s = on_client (get n) (get_client s.world) s

  -- `matchRetryableErrors`
  unfoldable pub match_retryable_errors : List String → String → Bool
  match_retryable_errors [] msg = false
  match_retryable_errors (v ∷ vs) msg = clients.match_string v msg || match_retryable_errors vs msg

  -- `isRetryable`
  unfoldable pub is_retryable : Option AnyError → Bool
  is_retryable none = false
  is_retryable (some (coded e)) =
      match_retryable_errors retryable_errors (generate_client_error_msg e)
  is_retryable (some (plain msg)) = match_retryable_errors retryable_errors msg

  -- `clearCache`
  abbrev pub clear_cache : WrapperState World Client → WrapperState World Client
  clear_cache s = record_event cleared (clients.delete s.world) s

  -- A method with the results `A`, which are empty if there is no client, and an error.
  module _ {A : Type 0} (empty : A) (op : Client → World → (A × Option AnyError) × World) where
    -- The operation on a client that was acquired, and its release.
    abbrev pub operate :
        Client → WrapperState World Client → (A × Option AnyError) × WrapperState World Client
    operate c s =
        let (r, w) = op c s.world in
        (r, record_event (released c) (clients.release c w) (record_event (operated c) w s))

    abbrev pub on_found :
        Found Client × WrapperState World Client
        → Option (A × Option AnyError) × WrapperState World Client
    on_found (waiting, s) = (none, s)
    on_found (not_found e, s) = (some (empty, some (coded e)), s)
    on_found (found c, s) = let (r, s') = operate c s in (some r, s')

    -- The function that the method runs once or twice; `none` is a wait that goes on.
    unfoldable pub attempt :
        ℕ → WrapperState World Client → Option (A × Option AnyError) × WrapperState World Client
    attempt n s = on_found (get n s)

    -- The second run, for the results of the first one.
    unfoldable pub retry :
        ℕ
        → Option (A × Option AnyError) × WrapperState World Client
        → Option (A × Option AnyError) × WrapperState World Client
    retry n (none, s) = (none, s)
    retry n (some (a, error), s) =
        if is_retryable error then attempt n (clear_cache s) else (some (a, error), s)

    -- The method
    unfoldable pub invoke :
        ℕ → WrapperState World Client → Option (A × Option AnyError) × WrapperState World Client
    invoke n s = retry n (attempt n s)
