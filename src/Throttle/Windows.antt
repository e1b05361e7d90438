-- ===== src/Throttle/Windows.antt =====
-- The fixed windows of packages/server/src/server/middleware/rate_limit.py.
use venya.Prelude.{
  ℕ, suc, ◌-◌, ◌≤◌, String, ◌≡◌, refl, sym, ap, subst, ◌∙◌, inl, inr, Bool, true, false, ◌&&◌, List,
  [], ◌∷◌, arith, ◌==◌, eq_iff, ◌=?◌, if◌then◌else◌, Bool-cases, All,
}
use venya.Throttle.{
  Tier, break_glass, cert_issuance, auth, generic, Middleware, Request, Counter, Response, passed,
  limit_of, same_tier, is_key, increment, count_of, truncated, identifier_of, dispatch_tier,
  dispatch, tier_of,
}

-- What one request finds: the server that handles it, which may be another one each time, the two readings
-- of its monotonic clock, that of the database, whether there is a backend, and what is answered.
pub record Visit : Type 0 where
  pub server : Middleware
  pub before : ℕ
  pub now : ℕ
  pub after : ℕ
  pub ready : Bool
  pub status : ℕ
  pub request : Request

unfoldable pub visit : List Counter → Visit → Middleware × (List Counter × Response)
visit cs v = dispatch v.server cs v.before v.now v.after v.ready v.status v.request

abbrev pub is_passed : Response → Bool
is_passed (passed status) = true
is_passed _ = false

-- The visit is counted under this key.
abbrev pub is_under : String → Tier → ℕ → Visit → Bool
is_under identifier tier start v =
    let t = tier_of v.request.path in
    (identifier_of t v.request == identifier) && (same_tier t tier && (truncated t v.now =? start))

-- How many of the visits are under the key and let through.
unfoldable pub admitted : String → Tier → ℕ → List Counter → List Visit → ℕ
unfolding visit
admitted identifier tier start cs [] = 0
admitted identifier tier start cs (v ∷ vs) =
    let outcome = visit cs v in
    let rest = admitted identifier tier start outcome.1.0 vs in
    if is_under identifier tier start v && is_passed outcome.1.1 then suc rest else rest

same_tier_eq : (t u : Tier) → same_tier t u ≡ true → t ≡ u
same_tier_eq break_glass break_glass e = refl
same_tier_eq cert_issuance cert_issuance e = refl
same_tier_eq auth auth e = refl
same_tier_eq generic generic e = refl
same_tier_eq break_glass cert_issuance e = absurd (cc e)
same_tier_eq break_glass auth e = absurd (cc e)
same_tier_eq break_glass generic e = absurd (cc e)
same_tier_eq cert_issuance break_glass e = absurd (cc e)
same_tier_eq cert_issuance auth e = absurd (cc e)
same_tier_eq cert_issuance generic e = absurd (cc e)
same_tier_eq auth break_glass e = absurd (cc e)
same_tier_eq auth cert_issuance e = absurd (cc e)
same_tier_eq auth generic e = absurd (cc e)
same_tier_eq generic break_glass e = absurd (cc e)
same_tier_eq generic cert_issuance e = absurd (cc e)
same_tier_eq generic auth e = absurd (cc e)

same_tier_refl : (t : Tier) → same_tier t t ≡ true
same_tier_refl break_glass = refl
same_tier_refl cert_issuance = refl
same_tier_refl auth = refl
same_tier_refl generic = refl

-- One request more is counted under its own key and under no other.
count_of-increment :
    (i j : String) (t u : Tier) (a b : ℕ) (cs : List Counter)
    → count_of j u b (increment i t a cs) ≡ (
        if (i == j) && (same_tier t u && (a =? b))
        then suc (count_of j u b cs)
        else count_of j u b cs)
unfolding count_of increment
count_of-increment i j t u a b [] = ground arith
count_of-increment i j t u a b (c ∷ cs) = elim (Bool-cases (is_key i t a c)) [
  | inl e ↦
      let names : c.identifier ≡ i = ground (arith, e, eq_iff c.identifier i) in
      let tiers : c.endpoint_type ≡ t = same_tier_eq c.endpoint_type t (ground (arith, e)) in
      let starts : c.window_start ≡ a = ground (arith, e) in ground (arith, e, names, tiers, starts)
  | inr e ↦ elim (Bool-cases ((i == j) && (same_tier t u && (a =? b)))) [
    | inr f ↦ ground (arith, e, f, count_of-increment i j t u a b cs)
    | inl f ↦
        let names : i ≡ j = ground (arith, f, eq_iff i j) in
        let tiers : t ≡ u = same_tier_eq t u (ground (arith, f)) in
        let starts : a ≡ b = ground (arith, f) in
        ground (arith, e, f, names, tiers, starts, count_of-increment i j t u a b cs)
  ]
]

module _ (m : Middleware) (cs : List Counter) (t : Tier) (before now after : ℕ) (ready : Bool)
    (status : ℕ) (r : Request) (j : String) (u : Tier) (b : ℕ) where
  abbrev tier_outcome : Middleware × (List Counter × Response)
  tier_outcome = dispatch_tier m cs t before now after ready status r

  counts_on : count_of j u b cs ≤ count_of j u b tier_outcome.1.0
  unfolding dispatch_tier
  counts_on = ground (arith, count_of-increment (identifier_of t r) j t u (truncated t now) b cs)

  passing_counts :
      ((identifier_of t r == j) && (same_tier t u && (truncated t now =? b))) ≡ true
      → is_passed tier_outcome.1.1 ≡ true
      → (count_of j u b tier_outcome.1.0 ≡ suc (count_of j u b cs))
        × (suc (count_of j u b cs) ≤ limit_of m u)
  unfolding dispatch_tier
  passing_counts h p =
      let names : identifier_of t r ≡ j = ground (arith, h, eq_iff (identifier_of t r) j) in
      let tiers : t ≡ u = same_tier_eq t u (ground (arith, h)) in
      let starts : truncated t now ≡ b = ground (arith, h) in
      let limits : limit_of m t ≡ limit_of m u = ap (limit_of m) tiers in
      let mine = count_of-increment (identifier_of t r) j t u (truncated t now) b cs in
      let counted : count_of j u b (increment (identifier_of t r) t (truncated t now) cs)
          ≡ suc (count_of j u b cs) =
        ground (arith, mine, h) in
      let own : count_of (identifier_of t r) t (truncated t now)
            (increment (identifier_of t r) t (truncated t now) cs)
          ≡ suc (count_of j u b cs) =
        cc (counted, names, tiers, starts) in
      ground (arith, p, counted, own, limits)

-- The server of a visit enforces at most this limit.
abbrev pub IsLimited : Tier → ℕ → Visit → Type 0
IsLimited u limit v = (v.server.enforce ≡ true) × (limit_of v.server u ≤ limit)

visit-enforced :
    (cs : List Counter) (v : Visit)
    → v.server.enforce ≡ true
    → visit cs v
      ≡ dispatch_tier v.server cs
          (tier_of v.request.path)
          v.before
          v.now
          v.after
          v.ready
          v.status
          v.request
unfolding visit dispatch
visit-enforced cs v e = rw e refl

-- However many servers share the table, and whatever they are asked: of the requests under one identifier, tier and
-- window, no more are let through than the limit leaves beyond the count that the table begins with,
-- if each server enforces at most this limit.
pub admitted_bound :
    (j : String) (u : Tier) (b limit : ℕ) (cs : List Counter) (vs : List Visit)
    → All (IsLimited u limit) vs
    → admitted j u b cs vs ≤ limit - count_of j u b cs
unfolding admitted
admitted_bound j u b limit cs [] h = omega arith
admitted_bound j u b limit cs (v ∷ vs) h =
    let t = tier_of v.request.path in
    let e = visit-enforced cs v h.0.0 in
    let more : count_of j u b cs ≤ count_of j u b (visit cs v).1.0 =
      subst
        (λ (o : Middleware × (List Counter × Response)). count_of j u b cs ≤ count_of j u b o.1.0)
        (sym e) (counts_on v.server cs t v.before v.now v.after v.ready v.status v.request j u b) in
    let passing =
      passing_counts v.server cs t v.before v.now v.after v.ready v.status v.request j u b in
    let rest = admitted_bound j u b limit (visit cs v).1.0 vs h.1 in
    elim (Bool-cases (is_under j u b v && is_passed (visit cs v).1.1)) [
      | inr f ↦ rw f (omega (arith, more, rest))
      | inl f ↦
          let through : is_passed
                (tier_outcome v.server cs t v.before v.now v.after v.ready v.status v.request j u
                  b).1.1
              ≡ true =
            ap (λ (o : Middleware × (List Counter × Response)). is_passed o.1.1) (sym e)
            ∙ ground (arith, f) in
          let (up, room) = passing (ground (arith, f)) through in
          let counted : count_of j u b (visit cs v).1.0 ≡ suc (count_of j u b cs) =
            ap (λ (o : Middleware × (List Counter × Response)). count_of j u b o.1.0) e ∙ up in
          rw f (omega (arith, rest, counted, room, h.0.1))
    ]
