-- ===== src/Guard/Texts.antt =====
-- The texts that the tests on the cookie and on the content type look for.
use Prim.Native.Char.{Char, code}
use text.Mathlib.TextLemmas.{nil-append, cons-append}
use Prim.Native.String
use molenkopf.Base.{
  String, ◌≡◌, refl, sym, ap, ◌∙◌, ◌≢◌, ◌⊎◌, inl, inr, Bool, true, false, not, Option, none, some,
  arith, ◌==◌, eq_iff, Bool-cases, is_empty, is_some, is_space, every_char, nat_eq, trim,
}
use molenkopf.Base.{strip_prefix, to_lower}
use molenkopf.Guard.{
  session_here, session_after, has_session_cookie, before_semicolon, ends_with,
  is_json_content_type,
}

-- The cookies hold no session: its name stands neither in front nor after a semicolon, with or without
-- white space between.
pub record HasNoSession (value : String) : Type 0 where
  pub not_first : (rest : String) → value ≢ String.◌++◌ "molenkopf_session=" rest
  pub not_later :
      (front spaces rest : String)
      → every_char is_space spaces ≡ true
      → value
        ≢ String.◌++◌ front
            (String.◌++◌ ";" (String.◌++◌ spaces (String.◌++◌ "molenkopf_session=" rest)))

strip_prefix-append : (p s : String) → strip_prefix p (String.◌++◌ p s) ≡ some s
unfolding strip_prefix
strip_prefix-append String.[] s = ap some (nil-append s)
strip_prefix-append (String.◌∷◌ c p) s =
    rw (cons-append c p s) (ground (arith, strip_prefix-append p s))

session_here-named :
    (spaced : Bool) (s : String)
    → is_some (strip_prefix "molenkopf_session=" s) ≡ true
    → session_here spaced s ≡ true
unfolding session_here
session_here-named spaced String.[] h = absurd (cc h)
session_here-named spaced (String.◌∷◌ c s) h = ground arith

session_here-spaced :
    (spaces rest : String)
    → every_char is_space spaces ≡ true
    → session_here true (String.◌++◌ spaces (String.◌++◌ "molenkopf_session=" rest)) ≡ true
unfolding session_here
session_here-spaced String.[] rest h = rw (nil-append (String.◌++◌ "molenkopf_session=" rest)) (
    session_here-named true (String.◌++◌ "molenkopf_session=" rest)
      (ap is_some (strip_prefix-append "molenkopf_session=" rest)))
session_here-spaced (String.◌∷◌ c spaces) rest h =
    rw (cons-append c spaces (String.◌++◌ "molenkopf_session=" rest))
      (ground (arith, session_here-spaced spaces rest))

session_after-later :
    (front t : String)
    → session_here true t ≡ true
    → session_after (String.◌++◌ front (String.◌++◌ ";" t)) ≡ true
unfolding session_after
session_after-later String.[] t h =
    rw (nil-append (String.◌++◌ ";" t), cons-append _ "" t, nil-append t) (ground arith)
session_after-later (String.◌∷◌ c front) t h =
    rw (cons-append c front (String.◌++◌ ";" t)) (ground (arith, session_after-later front t h))

pub has_session_cookie-no :
    (value : String) → has_session_cookie (some value) ≡ false → HasNoSession value
unfolding has_session_cookie
has_session_cookie-no value h = record {
  not_first = λ rest e.
      let named =
        session_here-named false (String.◌++◌ "molenkopf_session=" rest)
          (ap is_some (strip_prefix-append "molenkopf_session=" rest)) in
      ground arith;
  not_later = λ front spaces rest spaced e.
      let later =
        session_after-later front (String.◌++◌ spaces (String.◌++◌ "molenkopf_session=" rest))
          (session_here-spaced spaces rest spaced) in
      ground arith;
}

-- The text before the first semicolon, without the white space around it and in lower case, is
-- `application/json` or ends with `+json`.
pub record IsJson (value : String) : Type 0 where
  pub media : String
  pub rest : String
  pub parts : value ≡ String.◌++◌ media rest
  pub first : every_char (λ c. not (nat_eq c b';')) media ≡ true
  pub ended : (rest ≡ "") ⊎ ((c : Char) × (s : String) × (rest ≡ String.◌∷◌ c s) × (code c ≡ b';'))
  pub is_json :
      (to_lower (trim media) ≡ "application/json")
      ⊎ ((kind : String) × (to_lower (trim media) ≡ String.◌++◌ kind "+json"))

before_semicolon-parts :
    (s : String)
    → (rest : String) × (s ≡ String.◌++◌ (before_semicolon s) rest)
      × (every_char (λ c. not (nat_eq c b';')) (before_semicolon s) ≡ true)
      × ((rest ≡ "") ⊎ ((d : Char) × (t : String) × (rest ≡ String.◌∷◌ d t) × (code d ≡ b';')))
unfolding before_semicolon
before_semicolon-parts String.[] = ("", refl, refl, inl refl)
before_semicolon-parts (String.◌∷◌ c s) = elim (Bool-cases (nat_eq (code c) b';')) [
  | inl e ↦
      rw e (String.◌∷◌ c s, sym (nil-append (String.◌∷◌ c s)), refl, inr (c, s, refl, ground arith))
  | inr e ↦
      let (rest, parts, first, ended) = before_semicolon-parts s in
      rw e (
        rest,
        ap (String.◌∷◌ c) parts ∙ sym (cons-append c (before_semicolon s) rest),
        ground arith,
        ended,
      )
]

is_empty-eq : (s : String) → is_empty s ≡ true → s ≡ ""
is_empty-eq String.[] h = refl
is_empty-eq (String.◌∷◌ c s) h = absurd (cc h)

ends_with-parts :
    (end s : String) → ends_with end s ≡ true → (front : String) × (s ≡ String.◌++◌ front end)
unfolding ends_with
ends_with-parts end String.[] h = ("", sym (nil-append end ∙ is_empty-eq end h))
ends_with-parts end (String.◌∷◌ c s) h = elim (Bool-cases (String.◌∷◌ c s == end)) [
  | inl e ↦ ("", (eq_iff (String.◌∷◌ c s) end).0 e ∙ sym (nil-append end))
  | inr e ↦
      let (front, parts) = ends_with-parts end s (ground arith) in
      (String.◌∷◌ c front, ap (String.◌∷◌ c) parts ∙ sym (cons-append c front end))
]

pub is_json_content_type-IsJson :
    (content_type : Option String)
    → is_json_content_type content_type ≡ true
    → (value : String) × (content_type ≡ some value) × IsJson value
unfolding is_json_content_type
is_json_content_type-IsJson none h = absurd (cc h)
is_json_content_type-IsJson (some value) h =
    let (rest, parts, first, ended) = before_semicolon-parts value in
    let media = to_lower (trim (before_semicolon value)) in
    (
      value,
      refl,
      record {
        media = before_semicolon value;
        rest = rest;
        parts = parts;
        first = first;
        ended = ended;
        is_json = elim (Bool-cases (media == "application/json")) [
          | inl e ↦ inl ((eq_iff media "application/json").0 e)
          | inr e ↦ inr (ends_with-parts "+json" media (ground arith))
        ];
      },
    )
