-- ===== src/Agent/Registry/Discovery.antt =====
-- What the registry shows: lookups, the tools that discover lists, and their order.
use vendorops_ai.Base.{
  ◌≤◌, String, ◌≡◌, ◌≢◌, ◌↔◌, ◌⊎◌, refl, inl, inr, true, Option, none, some, List, [], ◌∷◌, ◌++◌,
  arith, eq_iff, str_leb, str_leb_total, elem, All, Has, Bool-cases, Option-cases, keep_if,
  Has-keep_if, find_if, if◌then◌else◌, leb,
}
use vendorops_ai.Agent.Tools.{
  SideEffectClass, read, write, RiskClass, ToolDefinition, identity, risk_rank,
}
use vendorops_ai.Agent.Registry.{
  ToolRegistry, get_identity, get, register, subset, effect_in, allowed_side_effects, risk_limit,
  visible, insert_tool, sort_tools, discover, has_identity,
}

find-append :
    (key : String) (ts : List ToolDefinition) (t : ToolDefinition)
    → find_if (has_identity key) ts ≡ none
    → find_if (has_identity key) (ts ++ t ∷ []) ≡ (if has_identity key t then some t else none)
find-append key [] t h = refl
find-append key (u ∷ us) t h = ground (arith, find-append key us t)

find-append_ne :
    (key : String) (ts : List ToolDefinition) (t : ToolDefinition)
    → key ≢ identity t
    → find_if (has_identity key) (ts ++ t ∷ []) ≡ find_if (has_identity key) ts
find-append_ne key [] t n = ground (arith, eq_iff (identity t) key)
find-append_ne key (u ∷ us) t n = ground (arith, find-append_ne key us t n)

-- A registration succeeds if no registered tool has the identity, and is refused if one has it. If it
-- succeeds, the tool is found under its name and version, and every other identity is looked up as
-- before.
pub register-get :
    (r : ToolRegistry) (t : ToolDefinition) (key : String)
    → key ≢ identity t
    → ((get r t.name t.version ≡ none)
        × (r' : ToolRegistry) × (register r t ≡ some r')
        × (get r' t.name t.version ≡ some t)
        × (get_identity r' key ≡ get_identity r key))
      ⊎ ((u : ToolDefinition) × (get r t.name t.version ≡ some u) × (register r t ≡ none))
unfolding register get get_identity
register-get r t key d = elim (Option-cases (get_identity r (identity t))) [
  | inl n ↦ inl (
    n,
    record { tools = r.tools ++ t ∷ [] },
    ground arith,
    ground (arith, find-append (identity t) r.tools t n, eq_iff (identity t) (identity t)),
    find-append_ne key r.tools t d,
  )
  | inr (u, e) ↦ inr (u, e, ground arith)
]

pub subset_iff :
    (cs held : List String) → (subset cs held ≡ true) ↔ All (λ c. elem c held ≡ true) cs
subset_iff [] held = ((λ h. tt), (λ h. refl))
subset_iff (c ∷ cs) held = (
  (λ h. (ground arith, (subset_iff cs held).0 (ground arith))),
  (λ h. rw (h.0, (subset_iff cs held).1 h.1)),
)

-- What discover asks of a tool.
pub record IsVisible (capabilities : List String) (effects : Option (List SideEffectClass))
    (risk : Option RiskClass) (t : ToolDefinition) : Type 0 where
  pub capable : All (λ c. elem c capabilities ≡ true) t.required_capabilities
  pub effect : (es : List SideEffectClass) → effects ≡ some es → es ≢ [] → Has t.side_effect es
  pub bounded : (m : RiskClass) → risk ≡ some m → risk_rank t.risk ≤ risk_rank m

Has-insert :
    (x t : ToolDefinition) (ts : List ToolDefinition)
    → Has x (insert_tool t ts) ↔ ((t ≡ x) ⊎ Has x ts)
unfolding insert_tool
Has-insert x t [] = ((λ h. h), (λ h. h))
Has-insert x t (u ∷ us) = elim (Bool-cases (str_leb (identity t) (identity u))) [
  | inl e ↦ rw e ((λ h. h), (λ h. h))
  | inr e ↦ rw e (to (Has-insert x t us), from (Has-insert x t us))
]
  where
    to :
        Has x (insert_tool t us) ↔ ((t ≡ x) ⊎ Has x us)
        → (u ≡ x) ⊎ Has x (insert_tool t us)
        → (t ≡ x) ⊎ ((u ≡ x) ⊎ Has x us)
    to ih (inl q) = inr (inl q)
    to ih (inr m) = elim (ih.0 m) [ inl q ↦ inl q | inr n ↦ inr (inr n) ]

    from :
        Has x (insert_tool t us) ↔ ((t ≡ x) ⊎ Has x us)
        → (t ≡ x) ⊎ ((u ≡ x) ⊎ Has x us)
        → (u ≡ x) ⊎ Has x (insert_tool t us)
    from ih (inl q) = inr (ih.1 (inl q))
    from ih (inr (inl q)) = inl q
    from ih (inr (inr m)) = inr (ih.1 (inr m))

Has-sort : (x : ToolDefinition) (ts : List ToolDefinition) → Has x (sort_tools ts) ↔ Has x ts
unfolding sort_tools
Has-sort x [] = ((λ h. h), (λ h. h))
Has-sort x (t ∷ ts) = (
  to (Has-insert x t (sort_tools ts)) (Has-sort x ts),
  from (Has-insert x t (sort_tools ts)) (Has-sort x ts),
)
  where
    to :
        Has x (insert_tool t (sort_tools ts)) ↔ ((t ≡ x) ⊎ Has x (sort_tools ts))
        → Has x (sort_tools ts) ↔ Has x ts
        → Has x (insert_tool t (sort_tools ts))
        → (t ≡ x) ⊎ Has x ts
    to i s h = elim (i.0 h) [ inl q ↦ inl q | inr m ↦ inr (s.0 m) ]

    from :
        Has x (insert_tool t (sort_tools ts)) ↔ ((t ≡ x) ⊎ Has x (sort_tools ts))
        → Has x (sort_tools ts) ↔ Has x ts
        → (t ≡ x) ⊎ Has x ts
        → Has x (insert_tool t (sort_tools ts))
    from i s (inl q) = i.1 (inl q)
    from i s (inr m) = i.1 (inr (s.1 m))

-- The first tool of the list, if any, does not come before `t`.
abbrev HeadLe : ToolDefinition → List ToolDefinition → Type 0
HeadLe t [] = Unit
HeadLe t (u ∷ us) = str_leb (identity t) (identity u) ≡ true

-- Neighbours stand in the order of their identities.
abbrev pub IsSorted : List ToolDefinition → Type 0
IsSorted [] = Unit
IsSorted (t ∷ ts) = HeadLe t ts × IsSorted ts

insert-HeadLe :
    (u t : ToolDefinition) (ts : List ToolDefinition)
    → str_leb (identity u) (identity t) ≡ true
    → HeadLe u ts
    → HeadLe u (insert_tool t ts)
unfolding insert_tool
insert-HeadLe u t [] e h = e
insert-HeadLe u t (v ∷ vs) e h = elim (Bool-cases (str_leb (identity t) (identity v))) [
  | inl b ↦ rw b e
  | inr b ↦ rw b h
]

insert-IsSorted :
    (t : ToolDefinition) (ts : List ToolDefinition) → IsSorted ts → IsSorted (insert_tool t ts)
unfolding insert_tool
insert-IsSorted t [] h = (tt, tt)
insert-IsSorted t (u ∷ us) h = elim (Bool-cases (str_leb (identity t) (identity u))) [
  | inl e ↦ rw e (e, h)
  | inr e ↦ rw e (
    insert-HeadLe u t us (str_leb_total (identity t) (identity u) e) h.0,
    insert-IsSorted t us h.1,
  )
]

sort-IsSorted : (ts : List ToolDefinition) → IsSorted (sort_tools ts)
unfolding sort_tools
sort-IsSorted [] = tt
sort-IsSorted (t ∷ ts) = insert-IsSorted t (sort_tools ts) (sort-IsSorted ts)

effect_in_iff :
    (e : SideEffectClass) (es : List SideEffectClass) → (effect_in e es ≡ true) ↔ Has e es
effect_in_iff e [] = ((λ h. absurd (cc h)), (λ h. absurd h))
effect_in_iff read (read ∷ es) = ((λ h. inl refl), (λ h. refl))
effect_in_iff read (write ∷ es) = (
  (λ h. inr ((effect_in_iff read es).0 h)),
  (λ h. elim h [ inl q ↦ absurd (cc q) | inr m ↦ (effect_in_iff read es).1 m ]),
)
effect_in_iff write (write ∷ es) = ((λ h. inl refl), (λ h. refl))
effect_in_iff write (read ∷ es) = (
  (λ h. inr ((effect_in_iff write es).0 h)),
  (λ h. elim h [ inl q ↦ absurd (cc q) | inr m ↦ (effect_in_iff write es).1 m ]),
)

module _ (capabilities : List String) (effects : Option (List SideEffectClass))
    (risk : Option RiskClass) (t : ToolDefinition) where
  effect_allowed :
      effect_in t.side_effect (allowed_side_effects effects) ≡ true
      → (es : List SideEffectClass) → effects ≡ some es
      → es ≢ []
      → Has t.side_effect es
  unfolding allowed_side_effects
  effect_allowed h [] q n = absurd (n refl)
  effect_allowed h (e ∷ es) q n = (effect_in_iff t.side_effect (e ∷ es)).0 (rw q at h)

  effect_from :
      (o : Option (List SideEffectClass))
      → ((es : List SideEffectClass) → o ≡ some es → es ≢ [] → Has t.side_effect es)
      → effect_in t.side_effect (allowed_side_effects o) ≡ true
  unfolding allowed_side_effects
  effect_from none h = ground arith
  effect_from (some []) h = ground arith
  effect_from (some (e ∷ es)) h =
      (effect_in_iff t.side_effect (e ∷ es)).1 (h (e ∷ es) refl (λ q. cc q))

  visible-IsVisible :
      visible capabilities effects risk t ≡ true → IsVisible capabilities effects risk t
  unfolding visible
  visible-IsVisible h = record {
    capable = (subset_iff t.required_capabilities capabilities).0 (ground arith);
    effect = effect_allowed (ground arith);
    bounded = λ m e. ground arith;
  }

  within_limit :
      (o : Option RiskClass)
      → ((m : RiskClass) → o ≡ some m → risk_rank t.risk ≤ risk_rank m)
      → leb (risk_rank t.risk) (risk_rank (risk_limit o)) ≡ true
  within_limit none h = ground arith
  within_limit (some m) h = ground (arith, h m refl)

  IsVisible-visible :
      IsVisible capabilities effects risk t → visible capabilities effects risk t ≡ true
  unfolding visible
  IsVisible-visible h =
      rw
        (
          (subset_iff t.required_capabilities capabilities).1 h.capable,
          effect_from effects h.effect,
        )
        (within_limit risk h.bounded)

-- discover lists exactly the registered tools whose capabilities the caller has, whose side effect is
-- among the given ones unless none are given, and whose risk is at most the given one; and it lists
-- them in the order of their identities.
pub discover_iff :
    (r : ToolRegistry) (capabilities : List String) (effects : Option (List SideEffectClass))
    (risk : Option RiskClass) (t : ToolDefinition)
    → (Has t (discover r capabilities effects risk)
        ↔ (Has t r.tools × IsVisible capabilities effects risk t))
      × IsSorted (discover r capabilities effects risk)
unfolding discover
discover_iff r capabilities effects risk t = (
  (
    (λ h.
        let (m, v) = filtered.0 (sorted.0 h) in
        (m, visible-IsVisible capabilities effects risk t v)),
    (λ h. sorted.1 (filtered.1 (h.0, IsVisible-visible capabilities effects risk t h.1))),
  ),
  sort-IsSorted (keep_if (visible capabilities effects risk) r.tools),
)
  where
    sorted :
        Has t (sort_tools (keep_if (visible capabilities effects risk) r.tools))
        ↔ Has t (keep_if (visible capabilities effects risk) r.tools)
    sorted = Has-sort t (keep_if (visible capabilities effects risk) r.tools)

    filtered :
        Has t (keep_if (visible capabilities effects risk) r.tools)
        ↔ (Has t r.tools × (visible capabilities effects risk t ≡ true))
    filtered = Has-keep_if (visible capabilities effects risk) t r.tools
