-- ===== src/Admin/Limits.antt =====
-- internal/admin/limits.go: the rate limiter. Times are natural numbers, and the zero time is 0.
use new_api_gateway.Prelude.{
  ℕ, ◌+◌, ◌≤◌, ◌<◌, String, Bool, true, false, ◌||◌, List, [], ◌∷◌, ◌≡◌, sym, ap, ◌∙◌, inl, inr,
  arith, leb, ◌==◌, nat_eq, string_eq, if◌then◌else◌, Bool-cases, All,
}

-- `rateCounter`
pub record Counter : Type 0 where
  pub count : ℕ
  pub window_end : ℕ

-- `MemoryRateLimiter` without its counters.
pub record Limiter : Type 0 where
  pub limit : ℕ
  pub window : ℕ

-- A key that the map lacks has the zero counter.
abbrev pub Counters : Type 0
Counters = String → Counter

-- The counter that the request meets: a new one, if there is none or its window is over.
unfoldable pub current : ℕ → ℕ → Counter → Counter
current window now c =
    if c.window_end == 0 || leb c.window_end now
    then record { count = 0; window_end = now + window }
    else c

unfoldable pub count_request : ℕ → Counter → Bool × Counter
count_request limit c =
    if leb limit c.count then (false, c) else (true, record c { count = c.count + 1 })

abbrev pub set_counter : Counters → String → Counter → Counters
set_counter counters key c = λ k. if k == key then c else counters k

-- `MemoryRateLimiter.Allow`
unfoldable pub allow : Limiter → String → ℕ → Counters → Bool × Counters
allow l key now counters =
    let (ok, c) = count_request l.limit (current l.window now (counters key)) in
    if l.limit == 0 || l.window == 0 then (true, counters) else (ok, set_counter counters key c)

-- How many of the requests with the key are allowed, one after the other.
unfoldable pub allowed : Limiter → String → List (String × ℕ) → Counters → ℕ
allowed l key [] counters = 0
allowed l key ((k, now) ∷ requests) counters =
    let (ok, counters') = allow l k now counters in
    let rest = allowed l key requests counters' in
    if key == k then (if ok then rest + 1 else rest) else rest

current-open : (window now : ℕ) (c : Counter) → now < c.window_end → current window now c ≡ c
unfolding current
current-open window now c h =
    let open_ : (c.window_end == 0 || leb c.window_end now) ≡ false = ground arith in rw open_

-- The limiter limits, and does not let all through.
abbrev pub is_off : Limiter → Bool
is_off l = l.limit == 0 || l.window == 0

module _ (l : Limiter) (key k : String) (now : ℕ) (counters : Counters) where
  allow-other : key == k ≡ false → (allow l k now counters).1 key ≡ counters key
  unfolding allow
  allow-other other = elim (Bool-cases (is_off l)) [ inl off ↦ rw off | inr on ↦ rw (on, other) ]

  allow-own :
      is_off l ≡ false
      → key == k ≡ true
      → now < (counters key).window_end
      → ((allow l k now counters).0 ≡ (count_request l.limit (counters key)).0)
        × ((allow l k now counters).1 key ≡ (count_request l.limit (counters key)).1)
  unfolding allow
  allow-own on same h =
      let own : current l.window now (counters k) ≡ counters key =
        ap (λ x. current l.window now (counters x)) (sym ((string_eq.same_iff key k).0 same))
        ∙ current-open l.window now (counters key) h in
      (rw (on, own), rw (on, same, own))

-- How the limiter counts a request of the key itself.
full-denied :
    (limit : ℕ) (c : Counter) → leb limit c.count ≡ true → count_request limit c ≡ (false, c)
unfolding count_request
full-denied limit c h = rw h

free-allowed :
    (limit : ℕ) (c : Counter)
    → leb limit c.count ≡ false
    → count_request limit c ≡ (true, record c { count = c.count + 1 })
unfolding count_request
free-allowed limit c h = rw h

-- While a key's window is open, at most as many requests with the key are allowed as the limit leaves
-- open, however requests with other keys come between. `c` is the key's counter.
pub allowed-le-limit :
    (l : Limiter) (key : String) (requests : List (String × ℕ)) (counters : Counters) (c : Counter)
    → is_off l ≡ false
    → counters key ≡ c
    → c.count ≤ l.limit
    → All (λ q. q.1 < c.window_end) requests
    → allowed l key requests counters + c.count ≤ l.limit
unfolding allowed
allowed-le-limit l key [] counters c on at' hc hs = omega arith
allowed-le-limit l key ((k, now) ∷ requests) counters c on at' hc (hn, hs) =
    elim (Bool-cases (key == k)) [
      | inr other ↦ rw other (
          allowed-le-limit l key requests (allow l k now counters).1 c on
            (allow-other l key k now counters other ∙ at') hc hs)
      | inl same ↦
          let (ok, counter) = allow-own l key k now counters on same (rw at' hn) in
          elim (Bool-cases (leb l.limit c.count)) [
            | inl full ↦
                let e = ap (count_request l.limit) at' ∙ full-denied l.limit c full in
                rw (same, ok ∙ ap (λ x. x.0) e)
                  (allowed-le-limit l key requests (allow l k now counters).1 c on
                    (counter ∙ ap (λ x. x.1) e) hc hs)
            | inr free ↦
                let e = ap (count_request l.limit) at' ∙ free-allowed l.limit c free in
                rw (same, ok ∙ ap (λ x. x.0) e)
                  (omega (
                    arith,
                    allowed-le-limit l key requests (allow l k now counters).1
                        (record c { count = c.count + 1 }) on (counter ∙ ap (λ x. x.1) e)
                        (ground arith) hs,
                  ))
          ]
    ]
