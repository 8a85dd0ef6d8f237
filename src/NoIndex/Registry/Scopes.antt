-- ===== src/NoIndex/Registry/Scopes.antt =====
-- What the rules exclude: the exact condition, and the scopes' order.
use mathlib.Core.Path.{subst}
use bank_rag_bot.Prelude.{
  Elem-All, Elem-keep, keep-Elem, All, All-at, ◌≢◌, eq_iff, Bool-cases, none, some, ◌==◌, String,
  true, ◌&&◌, ◌||◌, Option, List, [], ◌∷◌, ◌≡◌, refl, ◌⊎◌, inl, inr, ◌↔◌, arith, Elem,
}
use bank_rag_bot.Domain.{ChunkLocator, NoIndexRule}
use bank_rag_bot.NoIndex.Glob.{fnmatch}
use bank_rag_bot.NoIndex.Glob.Literal.{fnmatch-star}
use bank_rag_bot.NoIndex.Registry.{
  add_rule, remove_rule, is_excluded, scope_matches, locator_matches, pattern_or_star,
}

-- The text is one that the pattern names; no pattern, or an empty one, names every text.
abbrev pub IsNamed : String → Option String → Type 0
IsNamed value none = Unit
IsNamed value (some p) = (p ≡ "") ⊎ (fnmatch value p ≡ true)

-- A scope without a kind covers the document and every place in it, and one with a kind only the
-- places of that kind that its pattern names.
abbrev pub Covers : Option String → Option String → Option ChunkLocator → Type 0
Covers none pattern locator = Unit
Covers (some kind) pattern none = ⊥
Covers (some kind) pattern (some l) = (l.kind ≡ kind) × IsNamed l.value pattern

-- A rule that applies to an identifier and a locator.
abbrev pub Applies : NoIndexRule → String → Option ChunkLocator → Type 0
Applies r identifier locator =
    (fnmatch identifier r.pattern ≡ true) × Covers r.locator_kind r.locator_pattern locator

pattern_or_star-IsNamed :
    (value : String) (pattern : Option String)
    → (fnmatch value (pattern_or_star pattern) ≡ true) ↔ IsNamed value pattern
unfolding pattern_or_star
pattern_or_star-IsNamed value none = (λ h. tt, λ u. fnmatch-star value)
pattern_or_star-IsNamed value (some p) = (
  λ h. ground (arith, eq_iff p "", fnmatch-star value),
  λ n. ground (arith, eq_iff p "", fnmatch-star value),
)

scope_matches-Covers :
    (kind pattern : Option String) (locator : Option ChunkLocator)
    → (scope_matches kind pattern locator ≡ true) ↔ Covers kind pattern locator
unfolding scope_matches locator_matches
scope_matches-Covers none pattern locator = (λ h. tt, λ u. refl)
scope_matches-Covers (some k) pattern none = (λ h. ground arith, λ n. absurd n)
scope_matches-Covers (some k) pattern (some l) =
    let named = pattern_or_star-IsNamed l.value pattern in
    (
      λ h. (ground (arith, eq_iff l.kind k), named.0 (ground arith)),
      λ c. let e = named.1 c.1 in ground (arith, eq_iff l.kind k),
    )

excluded-Applies :
    (rules : List NoIndexRule) (identifier : String) (locator : Option ChunkLocator)
    → is_excluded rules identifier locator ≡ true
    → (r : NoIndexRule) × Elem r rules × Applies r identifier locator
unfolding is_excluded
excluded-Applies [] identifier locator h = absurd (ground arith)
excluded-Applies (r ∷ rs) identifier locator h = elim (and-split h) [
  | inl (here, scope) ↦
      (r, inl refl, (here, (scope_matches-Covers r.locator_kind r.locator_pattern locator).0 scope))
  | inr later ↦ let (s, m, a) = excluded-Applies rs identifier locator later in (s, inr m, a)
]
  where
    and-split :
        ((fnmatch identifier r.pattern && scope_matches r.locator_kind r.locator_pattern locator)
            || is_excluded rs identifier locator)
          ≡ true
        → ((fnmatch identifier r.pattern ≡ true)
            × (scope_matches r.locator_kind r.locator_pattern locator ≡ true))
          ⊎ (is_excluded rs identifier locator ≡ true)
    and-split e = ground arith

Applies-excluded :
    (rules : List NoIndexRule) (identifier : String) (locator : Option ChunkLocator)
    (r : NoIndexRule)
    → Elem r rules
    → Applies r identifier locator
    → is_excluded rules identifier locator ≡ true
unfolding is_excluded
Applies-excluded [] identifier locator r m a = absurd m
Applies-excluded (s ∷ rs) identifier locator r (inl e) a =
    let (p, q) = subst (λ x. Applies x identifier locator) e a in
    let scope = (scope_matches-Covers s.locator_kind s.locator_pattern locator).1 q in ground arith
Applies-excluded (s ∷ rs) identifier locator r (inr m) a =
    ground (arith, Applies-excluded rs identifier locator r m a)

-- The table's primary key: no two rows have one pattern.
abbrev pub IsKeyed : List NoIndexRule → Type 0
IsKeyed [] = Unit
IsKeyed (r ∷ rs) = All (λ s. s.pattern ≢ r.pattern) rs × IsKeyed rs

-- A rule of the list that has another pattern than `pattern`.
abbrev pub IsOther : String → List NoIndexRule → NoIndexRule → Type 0
IsOther pattern rules r = Elem r rules × (r.pattern ≢ pattern)

add_rule-All :
    (pattern : String) (rule : NoIndexRule) (rules : List NoIndexRule)
    → rule.pattern ≢ pattern
    → All (λ s. s.pattern ≢ pattern) rules
    → All (λ s. s.pattern ≢ pattern) (add_rule rule rules)
unfolding add_rule
add_rule-All pattern rule [] h hs = (h, tt)
add_rule-All pattern rule (s ∷ rs) h (k, ks) = elim (Bool-cases (s.pattern == rule.pattern)) [
  | inl same ↦ rw same (h, ks)
  | inr other ↦ rw other (k, add_rule-All pattern rule rs h ks)
]

pub add_rule-IsKeyed :
    (rule : NoIndexRule) (rules : List NoIndexRule) → IsKeyed rules → IsKeyed (add_rule rule rules)
unfolding add_rule
add_rule-IsKeyed rule [] h = (tt, tt)
add_rule-IsKeyed rule (s ∷ rs) (h, hs) = elim (Bool-cases (s.pattern == rule.pattern)) [
  | inl same ↦
      let e = (eq_iff s.pattern rule.pattern).0 same in
      rw same (subst (λ x. All (λ r. r.pattern ≢ x) rs) e h, hs)
  | inr other ↦ rw other (
    add_rule-All s.pattern rule rs (ground (arith, eq_iff s.pattern rule.pattern)) h,
    add_rule-IsKeyed rule rs hs,
  )
]

added :
    (rule r : NoIndexRule) (rules : List NoIndexRule)
    → Elem r (add_rule rule rules)
    → (r ≡ rule) ⊎ Elem r rules
unfolding add_rule
added rule r [] m = ground arith
added rule r (s ∷ rs) m = ground (arith, added rule r rs)

-- Just after a rule is added, what is excluded is what the new rule applies to or what was before.
pub add_rule-excluded :
    (rule : NoIndexRule) (rules : List NoIndexRule) (identifier : String)
    (locator : Option ChunkLocator)
    → is_excluded (add_rule rule rules) identifier locator ≡ true
    → Applies rule identifier locator ⊎ (is_excluded rules identifier locator ≡ true)
add_rule-excluded rule rules identifier locator h =
    let (r, m, a) = excluded-Applies (add_rule rule rules) identifier locator h in
    elim (added rule r rules m) [
      | inl same ↦ inl (subst (λ x. Applies x identifier locator) same a)
      | inr old ↦ inr (Applies-excluded rules identifier locator r old a)
    ]

added-IsOther :
    (rule r : NoIndexRule) (rules : List NoIndexRule)
    → IsKeyed rules
    → Elem r (add_rule rule rules)
    → (r ≡ rule) ⊎ IsOther rule.pattern rules r
unfolding add_rule
added-IsOther rule r [] keyed m = ground arith
added-IsOther rule r (s ∷ rs) (apart, keyed) m =
    let rest = added-IsOther rule r rs keyed in
    let behind = All-at (λ t. t.pattern ≢ s.pattern) rs r apart in
    ground (arith, eq_iff s.pattern rule.pattern)

Elem-add_rule : (rule : NoIndexRule) (rules : List NoIndexRule) → Elem rule (add_rule rule rules)
unfolding add_rule
Elem-add_rule rule [] = inl refl
Elem-add_rule rule (s ∷ rs) = ground (arith, Elem-add_rule rule rs)

IsOther-added :
    (rule r : NoIndexRule) (rules : List NoIndexRule)
    → IsOther rule.pattern rules r
    → Elem r (add_rule rule rules)
unfolding add_rule
IsOther-added rule r [] (m, other) = absurd m
IsOther-added rule r (s ∷ rs) (inl e, other) =
    let apart = subst (λ x. x.pattern ≢ rule.pattern) e other in
    ground (arith, eq_iff s.pattern rule.pattern)
IsOther-added rule r (s ∷ rs) (inr m, other) =
    let rest = IsOther-added rule r rs (m, other) in ground arith

module _ (rules : List NoIndexRule) (identifier : String) (locator : Option ChunkLocator) where
  -- An identifier with a locator is excluded exactly when some rule's pattern matches the
  -- identifier and either the rule is one for whole documents, or the locator is of the rule's kind
  -- and matches its locator pattern, which may be absent or empty.
  pub is_excluded_iff :
      (is_excluded rules identifier locator ≡ true)
      ↔ ((r : NoIndexRule) × Elem r rules × Applies r identifier locator)
  is_excluded_iff = (
    excluded-Applies rules identifier locator,
    λ (r, m, a). Applies-excluded rules identifier locator r m a,
  )

  -- If no two rules have one pattern, then no two have after a rule is added, and an identifier with
  -- a locator is excluded exactly when the new rule applies to it or one that was there before with
  -- another pattern.
  pub is_excluded-add_rule :
      (rule : NoIndexRule)
      → IsKeyed rules
      → IsKeyed (add_rule rule rules)
        × ((is_excluded (add_rule rule rules) identifier locator ≡ true) ↔ (
            Applies rule identifier locator
            ⊎ ((r : NoIndexRule) × IsOther rule.pattern rules r × Applies r identifier locator)))
  is_excluded-add_rule rule keyed = (
    add_rule-IsKeyed rule rules keyed,
    (
      λ h.
          let (r, m, a) = excluded-Applies (add_rule rule rules) identifier locator h in
          elim (added-IsOther rule r rules keyed m) [
            | inl same ↦ inl (subst (λ x. Applies x identifier locator) same a)
            | inr old ↦ inr (r, old, a)
          ],
      λ d. elim d [
        | inl a ↦ Applies-excluded _ identifier locator rule (Elem-add_rule rule rules) a
        | inr (r, old, a) ↦
            Applies-excluded _ identifier locator r (IsOther-added rule r rules old) a
      ],
    ),
  )

remove_rule-All :
    (pattern : String) (P : NoIndexRule → Type 0) (rules : List NoIndexRule)
    → All P rules
    → All P (remove_rule pattern rules)
unfolding remove_rule
remove_rule-All pattern P rules h =
    Elem-All P _ (λ r m. All-at P rules r h (Elem-keep _ r rules m).0)

remove_rule-IsKeyed :
    (pattern : String) (rules : List NoIndexRule)
    → IsKeyed rules
    → IsKeyed (remove_rule pattern rules)
unfolding remove_rule
remove_rule-IsKeyed pattern [] h = tt
remove_rule-IsKeyed pattern (r ∷ rs) (h, hs) = elim (Bool-cases (r.pattern == pattern)) [
  | inl same ↦ rw same (remove_rule-IsKeyed pattern rs hs)
  | inr other ↦
      rw other (
        remove_rule-All pattern (λ s. s.pattern ≢ r.pattern) rs h,
        remove_rule-IsKeyed pattern rs hs,
      )
]

-- If no two rules have one pattern, then no two have after a pattern is removed, and an identifier
-- with a locator is excluded exactly when a rule with another pattern applies to it.
pub is_excluded-remove_rule :
    (pattern : String) (rules : List NoIndexRule) (identifier : String)
    (locator : Option ChunkLocator)
    → IsKeyed rules
    → IsKeyed (remove_rule pattern rules)
      × ((is_excluded (remove_rule pattern rules) identifier locator ≡ true)
          ↔ ((r : NoIndexRule) × IsOther pattern rules r × Applies r identifier locator))
unfolding remove_rule
is_excluded-remove_rule pattern rules identifier locator keyed = (
  remove_rule-IsKeyed pattern rules keyed,
  (
    λ h.
        let (r, m, a) = excluded-Applies (remove_rule pattern rules) identifier locator h in
        let (inside, kept) = Elem-keep _ r rules m in
        (r, (inside, ground (arith, eq_iff r.pattern pattern)), a),
    λ (r, (m, other), a).
        Applies-excluded _ identifier locator r
          (keep-Elem _ r rules m (ground (arith, eq_iff r.pattern pattern))) a,
  ),
)
