-- ===== src/Routing/Providers/Laws.antt =====
-- What the selection of a provider keeps.
use molenkopf.Base.{
  ℕ, String, ◌≡◌, refl, sym, ap, ◌∙◌, inl, inr, Bool, true, false, ◌&&◌, none, some, List, [], ◌∷◌,
  arith, ◌==◌, eq_iff, eq_refl, Bool-cases, Option-cases, find, any,
}
use molenkopf.Runtime.{ProviderConfig, RuntimeState}
use molenkopf.Routing.Providers.{
  is_on, has_id, selected, first_provider, first_enabled_provider, active_provider, id_or_default,
  repair_active_provider,
}

module _ {ℓ} {A : Type ℓ} (p : A → Bool) where
  pub find-holds : (xs : List A) {x : A} → find p xs ≡ some x → p x ≡ true
  find-holds [] e = cc
  find-holds (y ∷ ys) {x} e = elim (Bool-cases (p y)) [
    | inl h ↦ ground arith
    | inr h ↦ find-holds ys {x = x} (rw h at e)
  ]

  pub find-any :
      (q : A → Bool) (xs : List A) {x : A} → find p xs ≡ some x → q x ≡ true → any q xs ≡ true
  find-any q [] e h = cc
  find-any q (y ∷ ys) {x} e h = elim (Bool-cases (p y)) [
    | inl k ↦ ground arith
    | inr k ↦ ground (arith, find-any q ys {x = x} (rw k at e) h)
  ]

  pub find-none : (xs : List A) → find p xs ≡ none → any p xs ≡ false
  find-none [] e = refl
  find-none (y ∷ ys) e = elim (Bool-cases (p y)) [
    | inl h ↦ absurd (ground arith)
    | inr h ↦ ground (arith, find-none ys (rw h at e))
  ]

-- The provider is configured, and it is enabled unless none is.
pub record IsSelectable (ps : List ProviderConfig) (p : ProviderConfig) : Type 0 where
  pub listed : any (has_id p.id) ps ≡ true
  pub on_listed : is_on p ≡ true → any (λ q. has_id p.id q && is_on q) ps ≡ true
  pub on_if_any : any is_on ps ≡ true → is_on p ≡ true

first_provider-listed :
    (ps : List ProviderConfig) {p : ProviderConfig}
    → first_provider ps ≡ some p
    → any (has_id p.id) ps ≡ true
first_provider-listed [] e = cc
first_provider-listed (q ∷ qs) {p} e = ground (arith, eq_refl p.id)

first_provider-on :
    (ps : List ProviderConfig) {p : ProviderConfig}
    → first_provider ps ≡ some p
    → is_on p ≡ true
    → any is_on ps ≡ true
first_provider-on [] e h = cc
first_provider-on (q ∷ qs) {p} e h = ground arith

IsSelectable-of_found :
    (test : ProviderConfig → Bool) (ps : List ProviderConfig) {a p : ProviderConfig}
    → find test ps ≡ some a
    → is_on a ≡ true
    → a ≡ p
    → IsSelectable ps p
IsSelectable-of_found test ps {a} {p} ea on same =
    let listed : any (has_id a.id) ps ≡ true = find-any test (has_id a.id) ps ea (eq_refl a.id) in
    let on_listed : any (λ q. has_id a.id q && is_on q) ps ≡ true =
      find-any test (λ q. has_id a.id q && is_on q) ps ea (ground (arith, eq_refl a.id)) in
    record {
      listed = rw same at listed;
      on_listed = λ _. rw same at on_listed;
      on_if_any = λ _. rw same at on;
    }

IsSelectable-of_first :
    (ps : List ProviderConfig) {p : ProviderConfig}
    → find is_on ps ≡ none
    → first_provider ps ≡ some p
    → IsSelectable ps p
IsSelectable-of_first ps {p} off e =
    let none_on = find-none is_on ps off in
    record {
      listed = first_provider-listed ps {p = p} e;
      on_listed = λ h. absurd (let l = first_provider-on ps {p = p} e h in ground arith);
      on_if_any = λ h. absurd (ground arith);
    }

pub selected-IsSelectable :
    (ps : List ProviderConfig) (id : String) {p : ProviderConfig}
    → selected ps id ≡ some p
    → IsSelectable ps p
selected-IsSelectable ps id {p} e = elim (Option-cases (find (λ q. has_id id q && is_on q) ps)) [
  | inr (a, ea) ↦
      let h = find-holds _ ps ea in
      IsSelectable-of_found (λ q. has_id id q && is_on q) ps ea (ground arith) (ground arith)
  | inl na ↦ elim (Option-cases (first_enabled_provider ps)) [
    | inr (b, eb) ↦ IsSelectable-of_found is_on ps eb (find-holds is_on ps eb) (ground arith)
    | inl nb ↦ IsSelectable-of_first ps nb (ground arith)
  ]
]

find-none-of :
    (p q : ProviderConfig → Bool) (ps : List ProviderConfig)
    → any q ps ≡ false
    → ((x : ProviderConfig) → p x ≡ true → q x ≡ true)
    → find p ps ≡ none
find-none-of p q [] h k = refl
find-none-of p q (x ∷ xs) h k = ground (arith, k x, find-none-of p q xs)

selected-all_off :
    (ps : List ProviderConfig) (id : String)
    → any is_on ps ≡ false
    → selected ps id ≡ first_provider ps
selected-all_off ps id h = ground (
  arith,
  find-none-of (λ p. has_id id p && is_on p) is_on ps h (λ x k. ground arith),
  find-none-of is_on is_on ps h (λ x k. k),
)

selected-on :
    (ps : List ProviderConfig) (id : String)
    → any (λ q. has_id id q && is_on q) ps ≡ true
    → id_or_default (selected ps id) ≡ id
selected-on ps id h = elim (Option-cases (find (λ q. has_id id q && is_on q) ps)) [
  | inl n ↦ absurd (let k = find-none _ ps n in ground arith)
  | inr (q, e) ↦ let k = find-holds _ ps e in ground (arith, eq_iff q.id id)
]

selected-none : (ps : List ProviderConfig) (id : String) → selected ps id ≡ none → ps ≡ []
selected-none [] id e = refl
selected-none (p ∷ ps) id e = absurd (
    ground (
      arith,
      Option-cases (find (λ q. has_id id q && is_on q) (p ∷ ps)),
      Option-cases (first_enabled_provider (p ∷ ps)),
    ))

-- Selecting by the id of the selected provider gives that id again.
selected-again :
    (ps : List ProviderConfig) (id : String)
    → id_or_default (selected ps (id_or_default (selected ps id))) ≡ id_or_default (selected ps id)
selected-again ps id = elim (Option-cases (selected ps id)) [
  | inl n ↦ rw (selected-none ps id n) refl
  | inr (p, e) ↦
      let sel = selected-IsSelectable ps id {p = p} e in
      elim (Bool-cases (is_on p)) [
        | inl on ↦ rw e (selected-on ps p.id (sel.on_listed on))
        | inr off ↦
            let none_on : any is_on ps ≡ false = elim (Bool-cases (any is_on ps)) [
              | inl h ↦ absurd (let k = sel.on_if_any h in ground arith)
              | inr h ↦ h
            ] in
            rw e (
              ap id_or_default
                (selected-all_off ps p.id none_on ∙ sym (selected-all_off ps id none_on) ∙ e))
      ]
]

-- After the repair the id that is stored is the one of the active provider, which is configured, and
-- enabled where a configured provider is; a second repair changes nothing.
pub repair_active_provider-repairs :
    (s : RuntimeState) (now later : ℕ)
    → (id_or_default (active_provider (repair_active_provider s now).0)
        ≡ (repair_active_provider s now).0.active_provider_id)
      × ((p : ProviderConfig)
          → active_provider (repair_active_provider s now).0 ≡ some p
          → IsSelectable s.providers p)
      × (repair_active_provider (repair_active_provider s now).0 later
          ≡ ((repair_active_provider s now).0, false))
unfolding repair_active_provider active_provider
repair_active_provider-repairs s now later =
    let id = id_or_default (active_provider s) in
    elim (Bool-cases (s.active_provider_id == id)) [
      | inl e ↦
          let same : s.active_provider_id ≡ id = ground (arith, eq_iff s.active_provider_id id) in
          rw e (
            sym same,
            (λ p h. selected-IsSelectable s.providers s.active_provider_id {p = p} h),
            rw e refl,
          )
      | inr e ↦
          let again = selected-again s.providers s.active_provider_id in
          rw e (
            again,
            (λ p h. selected-IsSelectable s.providers id {p = p} h),
            rw (again, eq_refl id) refl,
          )
    ]
