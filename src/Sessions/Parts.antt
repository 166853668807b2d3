-- ===== src/Sessions/Parts.antt =====
-- `s.split(".")` and `parts.join(".")` of packages/core/src/auth/session.ts.
use molenkopf.Base.{
  String, ◌≡◌, refl, sym, inl, inr, Bool, true, ◌&&◌, not, List, [], ◌∷◌, arith, ◌==◌, eq_iff,
  if◌then◌else◌, Bool-cases,
}
use Prim.Native.String
use Prim.Native.Char.{Char}
use text.Mathlib.TextLemmas.{nil-append, cons-append}

abbrev in_front : Char → List String → List String
in_front c [] = String.◌∷◌ c String.[] ∷ []
in_front c (p ∷ ps) = String.◌∷◌ c p ∷ ps

abbrev is_dot : Char → Bool
is_dot c = String.◌∷◌ c String.[] == "."

unfoldable pub split_dot : String → List String
split_dot String.[] = "" ∷ []
split_dot (String.◌∷◌ c s) =
    let parts = split_dot s in if is_dot c then "" ∷ parts else in_front c parts

unfoldable pub join_dot : List String → String
join_dot [] = ""
join_dot (p ∷ []) = p
join_dot (p ∷ q ∷ ps) = String.◌++◌ p (String.◌++◌ "." (join_dot (q ∷ ps)))

-- No character is a dot.
unfoldable pub no_dot : String → Bool
no_dot String.[] = true
no_dot (String.◌∷◌ c s) = not (is_dot c) && no_dot s

pub split_dot-plain : (s : String) → no_dot s ≡ true → split_dot s ≡ s ∷ []
unfolding split_dot no_dot
split_dot-plain String.[] h = refl
split_dot-plain (String.◌∷◌ c s) h = elim (Bool-cases (is_dot c)) [
  | inl e ↦ ground (arith)
  | inr e ↦ rw (e, split_dot-plain s (ground (arith)))
]

pub split_dot-append :
    (a b : String)
    → no_dot a ≡ true
    → no_dot b ≡ true
    → split_dot (String.◌++◌ a (String.◌++◌ "." b)) ≡ a ∷ b ∷ []
unfolding split_dot no_dot
split_dot-append String.[] b h k =
    rw (nil-append (String.◌++◌ "." b), cons-append _ "" b, nil-append b, split_dot-plain b k)
split_dot-append (String.◌∷◌ c a) b h k = elim (Bool-cases (is_dot c)) [
  | inl e ↦ ground (arith)
  | inr e ↦ rw (cons-append c a (String.◌++◌ "." b), e, split_dot-append a b (ground (arith)) k)
]

join_dot-front :
    (c : Char) (ps : List String) → join_dot (in_front c ps) ≡ String.◌∷◌ c (join_dot ps)
unfolding join_dot
join_dot-front c [] = refl
join_dot-front c (p ∷ []) = refl
join_dot-front c (p ∷ q ∷ ps) = cons-append c p (String.◌++◌ "." (join_dot (q ∷ ps)))

split_dot-cons : (s : String) → (p : String) × ((ps : List String) × (split_dot s ≡ p ∷ ps))
unfolding split_dot
split_dot-cons String.[] = ("", ([], refl))
split_dot-cons (String.◌∷◌ c s) = elim (Bool-cases (is_dot c)) [
  | inl e ↦ ("", (split_dot s, rw (e)))
  | inr e ↦ let (p, (ps, q)) = split_dot-cons s in (String.◌∷◌ c p, (ps, rw (e, q)))
]

join_dot-empty :
    (s : String) → join_dot ("" ∷ split_dot s) ≡ String.◌++◌ "." (join_dot (split_dot s))
unfolding join_dot
join_dot-empty s =
    let (p, (ps, q)) = split_dot-cons s in rw (q, nil-append (String.◌++◌ "." (join_dot (p ∷ ps))))

dot-append : (c : Char) (s : String) → is_dot c ≡ true → String.◌++◌ "." s ≡ String.◌∷◌ c s
dot-append c s e =
    rw (sym ((eq_iff (String.◌∷◌ c String.[]) ".").0 e), cons-append c "" s, nil-append s)

pub join_dot-split_dot : (s : String) → join_dot (split_dot s) ≡ s
unfolding join_dot split_dot
join_dot-split_dot String.[] = refl
join_dot-split_dot (String.◌∷◌ c s) = elim (Bool-cases (is_dot c)) [
  | inl e ↦ rw (e, join_dot-empty s, join_dot-split_dot s, dot-append c s e)
  | inr e ↦ rw (e, join_dot-front c (split_dot s), join_dot-split_dot s)
]
