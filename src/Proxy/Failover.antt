-- ===== src/Proxy/Failover.antt =====
-- ServeHTTP while a key is out of use: the attempts of a request leave it alone.
use all2api.Prelude.{
  ℕ, zero, suc, ◌≡◌, ◌≢◌, refl, sym, ◌∙◌, ◌⊎◌, inl, inr, some, Option-cases, List, [], ◌∷◌, ◌++◌,
  map, All, Bool-cases, ◌==◌, ==_iff,
}
use all2api.Text.{Bytes}
use all2api.Clock.{Time}
use all2api.Keypool.{KeyState, Pool, Handle, refresh, acquire}
use all2api.Keypool.Acquire.{acquire-Chooses}
use all2api.Keypool.Identity.{identity, identity-step, label_and_key, label_and_key-refresh}
use all2api.Keypool.Blocked.{Blocked, Elsewhere, step-Blocked, acquire-Blocked}
use all2api.Keypool.Step.{Call, acquires, rate_limits, errors, invalidates, step}
use all2api.Provider.{Outcome, success, rate_limited, key_invalid, server_error, client_error}
use all2api.Proxy.{Handler, PlatformRuntime}
use all2api.Proxy.Transport.{UpstreamRequest, UpstreamResult, upstream_request, forward}
use all2api.Proxy.Exchange.{ClientRequest, Store, Others, after_others, World, Served}
use all2api.Proxy.Serve.{give_up, pass_through, disconnect, react, forwarded, try_key, attempt}
use all2api.Proxy.Rule.{step_at}
use all2api.Proxy.Sent.{forward_sent, All-with_sent}

-- The entry is one of the list.
abbrev pub IsEntryOf : Bytes × Bytes → List (Bytes × Bytes) → Type 0
IsEntryOf e [] = ⊥
IsEntryOf e (f ∷ fs) = (f ≡ e) ⊎ IsEntryOf e fs

IsEntryOf-chosen :
    (now : Time) (before later : List KeyState) (k : KeyState)
    → IsEntryOf (label_and_key (refresh now k)) (map label_and_key (before ++ k ∷ later))
IsEntryOf-chosen now [] later k = inl (sym (label_and_key-refresh now k))
IsEntryOf-chosen now (j ∷ before) later k = inr (IsEntryOf-chosen now before later k)

IsEntryOf-acquire :
    (now : Time) (p : Pool) (handle : Handle)
    → (acquire now p).1 ≡ some handle
    → IsEntryOf (label_and_key handle.state) (identity p)
IsEntryOf-acquire now p handle e =
    let (before, k, later, same, _, _, _, state) = acquire-Chooses now p handle e in
    rw (same, state) (IsEntryOf-chosen now before later k)

-- The call is on another pool, or in the window and on another key.
abbrev pub IsAside : (Time → Type 0) → Bytes → ℕ → ℕ × (Time × Call) → Type 0
IsAside W label ref (r, c) = r ≡ ref → Elsewhere W label c

-- All steps of the request lie in the window, and the calls of other requests are aside.
pub record IsQuiet (w : World) (W : Time → Type 0) (label : Bytes) (ref : ℕ) : Type 0 where
  pub acquired : (n : ℕ) → W (w.acquired_at n)
  pub marked : (n : ℕ) → W (w.marked_at n)
  pub before : (n : ℕ) → All (IsAside W label ref) (w.before n)
  pub during : (n : ℕ) → All (IsAside W label ref) (w.during n)

module _ (W : Time → Type 0) (label : Bytes) (ref : ℕ) (ids : List (Bytes × Bytes)) where
  -- The pool has these keys, and none of this label is available in the window.
  abbrev pub IsShut : Store → Type 0
  IsShut s = (identity (s ref) ≡ ids) × Blocked W label (s ref)

  step_at-IsShut :
      (s : Store) (r : ℕ) (c : Time × Call)
      → IsAside W label ref (r, c)
      → IsShut s
      → IsShut (step_at s r c)
  step_at-IsShut s r c aside (same, shut) = elim (Bool-cases (ref == r)) [
    | inl hit ↦
        let e : ref ≡ r = (==_iff ref r).0 hit in
        let (now, spares) = aside (sym e) in
        rw hit (
          rw (← e) (identity-step (s ref) c ∙ same, step-Blocked W label (s ref) c now spares shut))
    | inr miss ↦ rw miss (same, shut)
  ]

  after_others-IsShut :
      (os : Others) (s : Store)
      → All (IsAside W label ref) os
      → IsShut s
      → IsShut (after_others os s)
  unfolding after_others
  after_others-IsShut [] s h shut = shut
  after_others-IsShut ((r, c) ∷ os) s (a, h) shut =
      after_others-IsShut os (step_at s r c) h (step_at-IsShut s r c a shut)

  module _ (h : Handler) (w : World) (req : ClientRequest) (platform : Bytes) (rt : PlatformRuntime)
      (rest : Bytes) (quiet : IsQuiet w W label ref) where
    -- The request is made with one of the pool's keys, whose label is another.
    abbrev pub Avoids : UpstreamRequest → Type 0
    Avoids out =
        (other : Bytes) × (key : Bytes) × (other ≢ label)
        × IsEntryOf (other, key) ids
        × (out ≡ upstream_request rt.transport (forwarded req rest) key)

    abbrev pub AllAvoid : Served → Type 0
    AllAvoid r = All Avoids r.sent

    react-AllAvoid :
        (o : Outcome) (n : ℕ) (handle : Handle) (res : UpstreamResult) (continue : Store → Served)
        (s : Store)
        → handle.state.label ≢ label
        → IsShut s
        → ((t : Store) → IsShut t → AllAvoid (continue t))
        → AllAvoid (react h w req platform rt ref o n handle res continue s)
    unfolding react step pass_through disconnect
    react-AllAvoid success n handle res continue s other shut go = tt
    react-AllAvoid rate_limited n handle res continue s other shut go = go _ (
        step_at-IsShut s ref (w.marked_at n, rate_limits handle.state.label)
          (λ _. (quiet.marked n, other)) shut)
    react-AllAvoid key_invalid n handle res continue s other shut go = go _ (
        step_at-IsShut s ref (w.marked_at n, invalidates handle.state.label _)
          (λ _. (quiet.marked n, other)) shut)
    react-AllAvoid server_error n handle res continue s other shut go =
        elim (Option-cases (w.cancelled n)) [
          | inl here ↦
              rw (here, react)
                (go _ (
                  step_at-IsShut s ref (w.marked_at n, errors handle.state.label _)
                    (λ _. (quiet.marked n, other)) shut))
          | inr (reason, gone) ↦ rw (gone, react) tt
        ]
    react-AllAvoid client_error n handle res continue s other shut go = tt

    try_key-AllAvoid :
        (n : ℕ) (handle : Handle) (continue : Store → Served) (s : Store)
        → handle.state.label ≢ label
        → IsEntryOf (label_and_key handle.state) ids
        → IsShut s
        → ((t : Store) → IsShut t → AllAvoid (continue t))
        → AllAvoid (try_key h w req platform rt ref rest n handle continue s)
    unfolding try_key
    try_key-AllAvoid n handle continue s other entry shut go =
        let key = handle.state.key in
        let f = forward w.request_error (w.send n) rt.transport (forwarded req rest) key in
        let s' = after_others (w.during n) s in
        All-with_sent Avoids f.1 (upstream_request rt.transport (forwarded req rest) key)
          (react h w req platform rt ref f.0.kind n handle f.0 continue s')
          (forward_sent w.request_error (w.send n) rt.transport (forwarded req rest) key)
          (handle.state.label, key, other, entry, refl)
          (react-AllAvoid f.0.kind n handle f.0 continue s' other
            (after_others-IsShut (w.during n) s (quiet.during n) shut) go)

    pub attempt-AllAvoid :
        (left n : ℕ) (s : Store)
        → IsShut s
        → AllAvoid (attempt h w req platform rt ref rest left n s)
    unfolding attempt step give_up
    attempt-AllAvoid zero n s shut = tt
    attempt-AllAvoid (suc left) n s shut =
        let s1 = after_others (w.before n) s in
        let shut1 = after_others-IsShut (w.before n) s (quiet.before n) shut in
        let shut2 =
          step_at-IsShut s1 ref (w.acquired_at n, acquires) (λ _. (quiet.acquired n, tt)) shut1 in
        elim (Option-cases (acquire (w.acquired_at n) (s1 ref)).1) [
          | inl nothing ↦ rw (nothing, attempt) tt
          | inr (handle, found) ↦
              rw (found, attempt)
                (try_key-AllAvoid n handle _ _
                  (acquire-Blocked W label (w.acquired_at n) (s1 ref) handle (quiet.acquired n)
                    shut1.1 found)
                  (rw (← shut1.0) (IsEntryOf-acquire (w.acquired_at n) (s1 ref) handle found)) shut2
                  (attempt-AllAvoid left (suc n)))
        ]
