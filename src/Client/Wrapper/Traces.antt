-- ===== src/Client/Wrapper/Traces.antt =====
-- What a method of the wrapper does: whatever happens, each client is released that was acquired.
use mathlib.Core.List.{append_assoc, append-nil}
use fabric_snaps.Common.{
  ℕ, zero, suc, ◌≡◌, refl, sym, ap, ◌∙◌, ◌⊎◌, inl, inr, Bool, true, false, Option, none, some, List,
  [], ◌∷◌, ◌++◌, if_elim,
}
use fabric_snaps.Errors.Texts.{CustomError}
use fabric_snaps.Client.Wrapper.{
  AnyError, Clients, Event, refused, acquired, operated, released, cleared, WrapperState, Found,
  found, not_found, waiting, get_client, get, on_acquire, on_client, on_found, retry, is_retryable,
  clear_cache, attempt, invoke, record_event,
}

used :
    {A : Type 0} (xs t u : List A) (a b c : A)
    → t ≡ u ++ a ∷ []
    → ((xs ++ t) ++ b ∷ []) ++ c ∷ [] ≡ xs ++ (u ++ a ∷ b ∷ c ∷ [])
used xs t u a b c e =
    append_assoc (xs ++ t) (b ∷ []) (c ∷ [])
    ∙ append_assoc xs t (b ∷ c ∷ [])
    ∙ ap (λ x. xs ++ (x ++ b ∷ c ∷ [])) e
    ∙ ap (λ x. xs ++ x) (append_assoc u (a ∷ []) (b ∷ c ∷ []))

module _ {Client : Type 0} where
  -- Clients that could not be acquired.
  pub data Refusals : List (Event Client) → Type 0 where
    no_refusal : Refusals []
    refusal : (c : Client) (t : List (Event Client)) → Refusals t → Refusals (refused c ∷ t)

  -- What a run of the function does: after the clients that are refused there is either none, or one that
  -- is acquired, runs the operation and is released.
  pub data Attempt (t : List (Event Client)) : Type 0 where
    without_client : Refusals t → Attempt t
    with_client :
        (c : Client) (u : List (Event Client))
        → Refusals u
        → t ≡ u ++ acquired c ∷ operated c ∷ released c ∷ []
        → Attempt t

module _ {World Ref Client : Type 0} (clients : Clients World Ref Client) where
  -- What the wait for a client does.
  abbrev pub Waited : Found Client → List (Event Client) → Type 0
  Waited (found c) t = (u : List (Event Client)) × (Refusals u × (t ≡ u ++ acquired c ∷ []))
  Waited (not_found e) t = Refusals t
  Waited waiting t = Refusals t

  refused_more :
      (f : Found Client) (c : Client) (t : List (Event Client))
      → Waited f t
      → Waited f (refused c ∷ t)
  refused_more (found d) c t (u, (h, e)) =
      (refused c ∷ u, (refusal c u h, ap (λ x. refused c ∷ x) e))
  refused_more (not_found e) c t h = refusal c t h
  refused_more waiting c t h = refusal c t h

  -- The events of a wait.
  abbrev Extends : WrapperState World Client → Found Client × WrapperState World Client → Type 0
  Extends s (f, s') = (t : List (Event Client)) × ((s'.events ≡ s.events ++ t) × Waited f t)

  on_acquire-Extends :
      (rest : WrapperState World Client → Found Client × WrapperState World Client) (c : Client)
      (r : Bool × World) (s : WrapperState World Client)
      → ((s' : WrapperState World Client) → Extends s' (rest s'))
      → Extends s (on_acquire clients rest c r s)
  on_acquire-Extends rest c (true, w) s h = (acquired c ∷ [], (refl, ([], (no_refusal, refl))))
  on_acquire-Extends rest c (false, w) s h =
      let (t, (e, waited)) = h (record_event clients (refused c) (clients.sleep w) s) in
      (
        refused c ∷ t,
        (e ∙ append_assoc s.events (refused c ∷ []) t, refused_more (rest _).0 c t waited),
      )

  on_client-Extends :
      (rest : WrapperState World Client → Found Client × WrapperState World Client)
      (r : (CustomError ⊎ Client) × World) (s : WrapperState World Client)
      → ((s' : WrapperState World Client) → Extends s' (rest s'))
      → Extends s (on_client clients rest r s)
  on_client-Extends rest (inl e, w) s h = ([], (sym (append-nil s.events), no_refusal))
  on_client-Extends rest (inr c, w) s h = on_acquire-Extends rest c (clients.acquire c w) s h

  get-Extends : (n : ℕ) (s : WrapperState World Client) → Extends s (get clients n s)
  unfolding get
  get-Extends zero s = ([], (sym (append-nil s.events), no_refusal))
  get-Extends (suc n) s =
      on_client-Extends (get clients n) (get_client clients s.world) s (get-Extends n)

  module _ {A : Type 0} (empty : A) (op : Client → World → (A × Option AnyError) × World) where
    abbrev Attempted : WrapperState World Client → WrapperState World Client → Type 0
    Attempted s s' = (t : List (Event Client)) × ((s'.events ≡ s.events ++ t) × Attempt t)

    on_found-Attempted :
        (s : WrapperState World Client) (r : Found Client × WrapperState World Client)
        → Extends s r
        → Attempted s (on_found clients empty op r).1
    on_found-Attempted s (waiting, s') (t, (e, h)) = (t, (e, without_client h))
    on_found-Attempted s (not_found x, s') (t, (e, h)) = (t, (e, without_client h))
    on_found-Attempted s (found c, s') (t, (e, (u, (h, e')))) = (
      u ++ acquired c ∷ operated c ∷ released c ∷ [],
      (
        ap (λ x. (x ++ operated c ∷ []) ++ released c ∷ []) e ∙ used s.events t u _ _ _ e',
        with_client c u h refl,
      ),
    )

    attempt-Attempted :
        (n : ℕ) (s : WrapperState World Client) → Attempted s (attempt clients empty op n s).1
    unfolding attempt
    attempt-Attempted n s = on_found-Attempted s (get clients n s) (get-Extends n s)

    -- What a method does: one run of its function, or, if the error of the first run is retryable, a run,
    -- the clearing of the cache and one more run.
    abbrev pub Runs : Option (A × Option AnyError) → List (Event Client) → Type 0
    Runs first t =
        Attempt t
        ⊎ ((u : List (Event Client)) × ((v : List (Event Client)) × (Attempt u
                × (Attempt v
                    × ((t ≡ u ++ cleared ∷ v)
                        × ((a : A) × ((error : Option AnyError) × ((first ≡ some (a, error))
                                × (is_retryable clients error ≡ true)))))))))

    abbrev pub Ran :
        WrapperState World Client
        → Option (A × Option AnyError)
        → WrapperState World Client
        → Type 0
    Ran s first s' = (t : List (Event Client)) × ((s'.events ≡ s.events ++ t) × Runs first t)

    retry-Ran :
        (n : ℕ) (s : WrapperState World Client)
        (r : Option (A × Option AnyError) × WrapperState World Client)
        → Attempted s r.1
        → Ran s r.0 (retry clients empty op n r).1
    unfolding retry
    retry-Ran n s (none, s') (t, (e, h)) = (t, (e, inl h))
    retry-Ran n s (some (a, error), s') (t, (e, h)) =
        if_elim (λ x. Ran s (some (a, error)) x.1) (is_retryable clients error)
          (attempt clients empty op n (clear_cache clients s')) (some (a, error), s')
          (λ yes.
            let (v, (e', h')) = attempt-Attempted n (clear_cache clients s') in
            (
              t ++ cleared ∷ v,
              (
                e'
                    ∙ append_assoc s'.events (cleared ∷ []) v
                    ∙ ap (λ x. x ++ cleared ∷ v) e
                    ∙ append_assoc s.events t (cleared ∷ v),
                inr (t, (v, (h, (h', (refl, (a, (error, (refl, yes)))))))),
              ),
            ))
          (λ no. (t, (e, inl h)))

    -- A method of the wrapper runs its operation at most twice, and twice only after an error that is
    -- retryable, with the cache cleared in between. In each run a client that was acquired runs the
    -- operation once and is then released; clients that refuse are waited for and not used.
    pub invoke-Ran :
        (n : ℕ) (s : WrapperState World Client)
        → Ran s (attempt clients empty op n s).0 (invoke clients empty op n s).1
    unfolding invoke
    invoke-Ran n s = retry-Ran n s (attempt clients empty op n s) (attempt-Attempted n s)
