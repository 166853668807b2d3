-- ===== src/Events/History.antt =====
-- What the history of the bus holds.
use molenkopf.Base.{
  ℕ, zero, suc, ◌-◌, ◌≤◌, ◌≡◌, refl, sym, ap, ◌∙◌, inl, inr, List, [], ◌∷◌, ◌++◌, arith, Bool-cases,
  length, drop, length-append,
}
use molenkopf.Base.{append-nil, append_assoc}
use molenkopf.Base.{drop-drop, length-drop}
use molenkopf.Events.{
  deliver, MolenkopfEvent, Client, EventBus, history_limit, last, deliver_all, emit, emit_all,
}

module _ {ℓ} {A : Type ℓ} where
  drop-append : (n : ℕ) (xs ys : List A) → n ≤ length xs → drop n (xs ++ ys) ≡ drop n xs ++ ys
  drop-append zero xs ys h = refl
  drop-append (suc n) [] ys h = absurd (omega (arith, h))
  drop-append (suc n) (x ∷ xs) ys h = drop-append n xs ys (omega (arith, h))

  -- Cutting twice is cutting once.
  last-append : (n : ℕ) (xs ys : List A) → last n (last n xs ++ ys) ≡ last n (xs ++ ys)
  last-append n xs ys =
      let k = length xs - n in
      let cut = drop-append k xs ys (omega arith) in
      rw (sym cut) (
        drop-drop (length (drop k (xs ++ ys)) - n) k (xs ++ ys)
        ∙ ap (λ (m : ℕ). drop m (xs ++ ys))
            (omega (arith, length-drop k (xs ++ ys), length-append xs ys)))

deliver_all-history :
    (cs : List Client) (e : MolenkopfEvent) (bus : EventBus)
    → (deliver_all cs e bus).history ≡ bus.history
unfolding deliver_all
deliver_all-history [] e bus = refl
deliver_all-history (c ∷ cs) e bus = elim (Bool-cases (c.takes e)) [
  | inl h ↦ ground (arith, deliver_all-history cs e (deliver c e bus).0)
  | inr h ↦ ground (arith, deliver_all-history cs e (deliver c e bus).0)
]

emit-history :
    (e : MolenkopfEvent) (bus : EventBus)
    → (emit e bus).history ≡ last history_limit (bus.history ++ e ∷ [])
unfolding emit
emit-history e bus =
    deliver_all-history bus.clients e
      (record bus { history = last history_limit (bus.history ++ e ∷ []) })

emit_all-from :
    (es before : List MolenkopfEvent) (bus : EventBus)
    → bus.history ≡ last history_limit before
    → (emit_all es bus).history ≡ last history_limit (before ++ es)
emit_all-from [] before bus h = h ∙ ap (last history_limit) (sym (append-nil before))
emit_all-from (e ∷ es) before bus h =
    emit_all-from es (before ++ e ∷ []) (emit e bus) (
      emit-history e bus
      ∙ ap (λ xs. last history_limit (xs ++ e ∷ [])) h
      ∙ last-append history_limit before (e ∷ []))
    ∙ ap (last history_limit) (append_assoc before (e ∷ []) es)

-- After any events, on a bus that keeps no more than a hundred, the history has the last hundred of
-- those it had and the new ones, in order.
pub emit_all-history :
    (es : List MolenkopfEvent) (bus : EventBus)
    → length bus.history ≤ history_limit
    → (emit_all es bus).history ≡ last history_limit (bus.history ++ es)
emit_all-history es bus short =
    emit_all-from es bus.history bus (ap (λ (n : ℕ). drop n bus.history) {x = 0} (omega arith))
