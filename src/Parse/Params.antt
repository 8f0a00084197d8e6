-- ===== src/Parse/Params.antt =====
-- src/parse.c, `paramListAdd` and `paramListGet`: the table of default values.
use mathlib.Core.Bool.{true≢false}
use mstone.Base.{
  ℕ, ◌≡◌, ◌≢◌, refl, sym, ap, ◌∙◌, inl, inr, ◌⊎◌, true, false, Bool-cases, if◌then◌else◌, List, [],
  ◌∷◌, ◌++◌, Option, none, some, Bytes, bytes_eq, bytes_eq→eq, arith,
}

-- `param_node_t`, and the list from `head` to `tail`
pub record ParamNode : Type 0 where
  pub name : Bytes
  pub value : Bytes

-- The loop of `paramListAdd`: the list with the new value in the first node of that name, or `none`
-- if there is no such node.
pub update : List ParamNode → Bytes → Bytes → Option (List ParamNode)
update [] name value = none
update (pl ∷ pls) name value =
    let rest = update pls name value in
    if bytes_eq pl.name name
    then some (record pl { value = value } ∷ pls)
    else elim rest [ none ↦ none | some l ↦ some (pl ∷ l) ]

-- `paramListAdd`: the list and what it returns
pub param_list_add : List ParamNode → Bytes → Bytes → List ParamNode × ℕ
param_list_add list name value = elim (update list name value) [
  | some l ↦ (l, 1)
  | none ↦ (list ++ (record { name = name; value = value } ∷ []), 0)
]

-- `paramListGet`
pub param_list_get : List ParamNode → Bytes → Option Bytes
param_list_get [] name = none
param_list_get (pl ∷ pls) name =
    let rest = param_list_get pls name in if bytes_eq pl.name name then some pl.value else rest

-- the names in the list, in order
abbrev pub names : List ParamNode → List Bytes
names [] = []
names (pl ∷ pls) = pl.name ∷ names pls

-- `new` is `old` with `value` for `name`, and the same for all other names.
abbrev pub Rebinds : List ParamNode → Bytes → Bytes → List ParamNode → Type 0
Rebinds old name value new =
    (other : Bytes)
    → param_list_get new other
      ≡ (if bytes_eq name other then some value else param_list_get old other)

-- What `paramListAdd` does, by what it returns: 1 when the name was in the list, whose names stay
-- as they are, and 0 when the name is new, which then stands behind all the others.
abbrev pub Adds : List ParamNode → Bytes → List ParamNode × ℕ → Type 0
Adds old name (new, ret) =
    ((ret ≡ 1) × (param_list_get old name ≢ none) × (names new ≡ names old))
    ⊎ ((ret ≡ 0) × (param_list_get old name ≡ none) × (names new ≡ names old ++ (name ∷ [])))

abbrev Updates : List ParamNode → Bytes → Bytes → Option (List ParamNode) → Type 0
Updates list name value none = param_list_get list name ≡ none
Updates list name value (some l) =
    Rebinds list name value l × (param_list_get list name ≢ none) × (names l ≡ names list)

apart :
    (a name other : Bytes)
    → bytes_eq a name ≡ false
    → bytes_eq a other ≡ true
    → bytes_eq name other ≡ false
apart a name other h k = elim (Bool-cases (bytes_eq name other)) [
  | inl e ↦ absurd (true≢false (sym (ap (bytes_eq a) (bytes_eq→eq name other e) ∙ k) ∙ h))
  | inr e ↦ e
]

Updates-cons :
    (pl : ParamNode) (pls : List ParamNode) (name value : Bytes) (o : Option (List ParamNode))
    → bytes_eq pl.name name ≡ false
    → Updates pls name value o
    → Updates (pl ∷ pls) name value (elim o [ none ↦ none | some l ↦ some (pl ∷ l) ])
unfolding param_list_get
Updates-cons pl pls name value none h k = rw h k
Updates-cons pl pls name value (some l) h (rebinds, found, same) = (
  λ other. elim (Bool-cases (bytes_eq pl.name other)) [
    | inl e ↦ rw (e, apart pl.name name other h e) refl
    | inr e ↦ rw e (rebinds other)
  ],
  rw h found,
  ap (◌∷◌ pl.name) same,
)

Rebinds-first :
    (pl : ParamNode) (pls : List ParamNode) (name value : Bytes)
    → pl.name ≡ name
    → Rebinds (pl ∷ pls) name value (record pl { value = value } ∷ pls)
unfolding param_list_get
Rebinds-first pl pls name value e other =
    let same : bytes_eq pl.name other ≡ bytes_eq name other = ap (λ n. bytes_eq n other) e in
    elim (Bool-cases (bytes_eq name other)) [
      | inl h ↦ rw (h, same ∙ h) refl
      | inr h ↦ rw (h, same ∙ h) refl
    ]

update-Updates :
    (list : List ParamNode) (name value : Bytes) → Updates list name value (update list name value)
unfolding update param_list_get
update-Updates [] name value = refl
update-Updates (pl ∷ pls) name value = elim (Bool-cases (bytes_eq pl.name name)) [
  | inl e ↦
      rw e (
        Rebinds-first pl pls name value (bytes_eq→eq pl.name name e),
        rw e (λ h. ground arith),
        refl,
      )
  | inr e ↦
      rw e
        (Updates-cons pl pls name value (update pls name value) e (update-Updates pls name value))
]

get-append :
    (list : List ParamNode) (name value other : Bytes)
    → param_list_get list name ≡ none
    → param_list_get (list ++ (record { name = name; value = value } ∷ [])) other
      ≡ (if bytes_eq name other then some value else param_list_get list other)
unfolding param_list_get
get-append [] name value other h = refl
get-append (pl ∷ pls) name value other h = elim (Bool-cases (bytes_eq pl.name name)) [
  | inl e ↦ absurd (ground arith)
  | inr e ↦ elim (Bool-cases (bytes_eq pl.name other)) [
    | inl k ↦ rw (k, apart pl.name name other e k) refl
    | inr k ↦ rw k (
        get-append pls name value other
          (sym (ap (λ b. if b then some pl.value else param_list_get pls name) e) ∙ h))
  ]
]

names-append :
    (list : List ParamNode) (pl : ParamNode)
    → names (list ++ (pl ∷ [])) ≡ names list ++ (pl.name ∷ [])
names-append [] pl = refl
names-append (p ∷ list) pl = ap (◌∷◌ p.name) (names-append list pl)

added :
    (list : List ParamNode) (name value : Bytes) (o : Option (List ParamNode))
    → Updates list name value o
    → let out : List ParamNode × ℕ = elim o [
      | some l ↦ (l, 1)
      | none ↦ (list ++ (record { name = name; value = value } ∷ []), 0)
    ] in
      Rebinds list name value out.0 × Adds list name out
added list name value none h =
    (λ other. get-append list name value other h, inr (refl, h, names-append list _))
added list name value (some l) (a, b, c) = (a, inl (refl, b, c))

-- After `paramListAdd` the list has the value for the name, and what it had for every other name;
-- what it returns says whether the name was there before, and no name is ever listed twice by it:
-- the names stay as they were, or a new one stands behind them.
pub param_list_add-get :
    (list : List ParamNode) (name value : Bytes)
    → Rebinds list name value (param_list_add list name value).0
      × Adds list name (param_list_add list name value)
unfolding param_list_add
param_list_add-get list name value =
    added list name value (update list name value) (update-Updates list name value)
