-- ===== src/Guard/Laws.antt =====
-- What a write that passes the guard has.
use molenkopf.Base.{
  String, ◌≡◌, refl, ◌⊎◌, inl, inr, true, false, Option, none, some, arith, ◌==◌, eq_iff,
  Bool-cases, Option-cases, or_else, includes,
}
use molenkopf.Guard.Texts.{HasNoSession, IsJson, has_session_cookie-no, is_json_content_type-IsJson}
use molenkopf.Guard.{
  is_loopback_name, Url, Request, passed, write_methods, is_loopback_bind_host, has_session_cookie,
  present, origin_allowed, check_control_plane_write, from_origin, dev_allowed, is_web,
  same_origin_host,
}
use molenkopf.Base.{to_lower}

-- A method that changes something.
abbrev pub IsWriteMethod : String → Type 0
IsWriteMethod m = (m ≡ "POST") ⊎ ((m ≡ "PUT") ⊎ ((m ≡ "PATCH") ⊎ (m ≡ "DELETE")))

write_methods-listed : (m : String) → IsWriteMethod m → includes write_methods m ≡ true
write_methods-listed m (inl e) = rw e refl
write_methods-listed m (inr (inl e)) = rw e refl
write_methods-listed m (inr (inr (inl e))) = rw e refl
write_methods-listed m (inr (inr (inr e))) = rw e refl

abbrev IsLoopbackName : String → Type 0
IsLoopbackName hostname =
    (to_lower hostname ≡ "localhost")
    ⊎ ((to_lower hostname ≡ "127.0.0.1") ⊎ (to_lower hostname ≡ "[::1]"))

-- The same host and port, where the names of the machine itself are the same host.
abbrev IsSameHost : Url → Url → Type 0
IsSameHost actual expected =
    (to_lower actual.host ≡ to_lower expected.host)
    ⊎ ((actual.port ≡ expected.port)
        × IsLoopbackName actual.hostname
        × IsLoopbackName expected.hostname)

is_loopback_name-IsLoopbackName :
    (name : String) → is_loopback_name name ≡ true → IsLoopbackName name
is_loopback_name-IsLoopbackName name h = elim (Bool-cases (to_lower name == "localhost")) [
  | inl e ↦ inl ((eq_iff (to_lower name) "localhost").0 e)
  | inr e ↦ elim (Bool-cases (to_lower name == "127.0.0.1")) [
    | inl f ↦ inr (inl ((eq_iff (to_lower name) "127.0.0.1").0 f))
    | inr f ↦ inr (inr ((eq_iff (to_lower name) "[::1]").0 (ground arith)))
  ]
]

same_origin_host-IsSameHost : (u v : Url) → same_origin_host u v ≡ true → IsSameHost u v
unfolding same_origin_host
same_origin_host-IsSameHost u v h = elim (Bool-cases (to_lower u.host == to_lower v.host)) [
  | inl e ↦ inl ((eq_iff (to_lower u.host) (to_lower v.host)).0 e)
  | inr e ↦ inr (
    (eq_iff u.port v.port).0 (ground arith),
    is_loopback_name-IsLoopbackName u.hostname (ground arith),
    is_loopback_name-IsLoopbackName v.hostname (ground arith),
  )
]

module _ (parse_url : String → Option Url) (dashboard_dev_origin : Option String) where
  -- The origin is a web page of the server itself, or of the dashboard in development.
  pub record IsOwnOrigin (origin : String) (host : Option String) : Type 0 where
    pub url : Url
    pub parsed : parse_url origin ≡ some url
    pub web : (url.protocol ≡ "http:") ⊎ (url.protocol ≡ "https:")
    pub own :
        ((h : String) × (present host ≡ some h) × (to_lower url.host ≡ to_lower h))
        ⊎ ((dev : String) × (allowed : Url) × (present dashboard_dev_origin ≡ some dev)
            × (parse_url dev ≡ some allowed)
            × (url.protocol ≡ allowed.protocol)
            × IsSameHost url allowed)

  -- A write that is safe to carry out.
  pub record IsSafeWrite (req : Request) (bind_host : String) : Type 0 where
    pub from_own : (o : String) → present req.origin ≡ some o → IsOwnOrigin o req.host
    pub no_session :
        present req.origin ≡ none
        → is_loopback_bind_host bind_host ≡ false
        → (value : String) → req.cookie ≡ some value
        → HasNoSession value
    pub is_json : (value : String) × (req.content_type ≡ some value) × IsJson value

  is_web-protocol :
      (u : Url)
      → is_web parse_url dashboard_dev_origin u ≡ true
      → (u.protocol ≡ "http:") ⊎ (u.protocol ≡ "https:")
  is_web-protocol u h = elim (Bool-cases (u.protocol == "http:")) [
    | inl e ↦ inl ((eq_iff u.protocol "http:").0 e)
    | inr e ↦ inr ((eq_iff u.protocol "https:").0 (ground arith))
  ]

  dev-own :
      (u : Url) (dev : Option String)
      → dev_allowed parse_url dashboard_dev_origin u dev ≡ true
      → (d : String) × (allowed : Url) × (dev ≡ some d)
        × (parse_url d ≡ some allowed)
        × (u.protocol ≡ allowed.protocol)
        × IsSameHost u allowed
  dev-own u none h = absurd (cc h)
  dev-own u (some d) h = elim (Option-cases (parse_url d)) [
    | inl n ↦ absurd (ground arith)
    | inr (allowed, n) ↦ (
      d,
      allowed,
      refl,
      n,
      ground (arith, eq_iff u.protocol allowed.protocol),
      same_origin_host-IsSameHost u allowed (ground arith),
    )
  ]

  from_origin-own :
      (o : String) (host : Option String)
      → from_origin parse_url dashboard_dev_origin o (present host) ≡ true
      → IsOwnOrigin o host
  from_origin-own o host h = elim (Option-cases (present host)) [
    | inl n ↦ absurd (ground arith)
    | inr (name, n) ↦ elim (Option-cases (parse_url o)) [
      | inl k ↦ absurd (ground arith)
      | inr (u, k) ↦ record {
        url = u;
        parsed = k;
        web = is_web-protocol u (ground arith);
        own = elim (Bool-cases (to_lower u.host == to_lower name)) [
          | inl e ↦ inl (name, n, ground (arith, eq_iff (to_lower u.host) (to_lower name)))
          | inr e ↦
              let (d, allowed, p, q, r, t) =
                dev-own u (present dashboard_dev_origin) (ground arith) in
              inr (d, allowed, p, q, r, t)
        ];
      }
    ]
  ]

  -- A request by `POST`, `PUT`, `PATCH` or `DELETE` that the guard lets pass comes, where it names an origin, from a web page of the server, or
  -- from one of the scheme and the host of the dashboard in development; where it names none, and the
  -- server is open to others, its cookies hold no session; and its content type is JSON.
  pub check_control_plane_write-IsSafeWrite :
      (req : Request) (bind_host method : String)
      → req.method ≡ some method
      → IsWriteMethod method
      → check_control_plane_write parse_url dashboard_dev_origin req bind_host ≡ passed
      → IsSafeWrite req bind_host
  unfolding check_control_plane_write origin_allowed
  check_control_plane_write-IsSafeWrite req bind_host method named is_write h =
      let write : includes write_methods (or_else req.method "GET") ≡ true =
        rw named (write_methods-listed method is_write) in
      record {
        from_own = λ o e. from_origin-own o req.host (ground arith);
        no_session = λ e public value cookie.
            let none_there : has_session_cookie req.cookie ≡ false = ground arith in
            has_session_cookie-no value (rw cookie at none_there);
        is_json = is_json_content_type-IsJson req.content_type (ground arith);
      }
