-- ===== src/Http/Laws.antt =====
-- The URLs and the end of a session, frontend/src/shared/api/http.ts.
use Prim.Native.Char.{Char}
use text.Mathlib.TextLemmas.{cons-append}
use chessview.Common.{
  String, ◌≡◌, refl, ap, ◌∙◌, Bool, true, false, not, Bool-cases, inl, inr, eq_iff, ◌&&◌, ◌⊎◌,
  Option, none, some, arith, ◌==◌, str_eq,
}
use chessview.Common.Text.{concat, truthy, truthy?}
use chessview.User
use chessview.User.{Persisted, get_persisted_access_token}
use chessview.Http.{
  Body, Request, Fetched, answered, failed, Page, Response, ends_with_slash, drop_last,
  starts_with_slash, build_url, get_access_token, sign_out, asked, request,
}

cons-truthy : (c : Char) (s : String) → truthy (String.◌∷◌ c s) ≡ true
cons-truthy c s = elim (Bool-cases (str_eq (String.◌∷◌ c s) "")) [
  | inl e ↦ absurd (cc ((eq_iff (String.◌∷◌ c s) "").0 e))
  | inr e ↦ rw e refl
]

concat-slash : (s : String) → truthy (concat s "/") ≡ true
concat-slash String.[] = refl
concat-slash (String.◌∷◌ c s) = rw cons-append (cons-truthy c (concat s "/"))

ends_with_slash-concat : (s : String) → ends_with_slash (concat s "/") ≡ true
ends_with_slash-concat String.[] = refl
ends_with_slash-concat (String.◌∷◌ c s) =
    rw (cons-append, concat-slash s) (ends_with_slash-concat s)

drop_last-concat : (s : String) → drop_last (concat s "/") ≡ s
drop_last-concat String.[] = refl
drop_last-concat (String.◌∷◌ c s) =
    rw (cons-append, concat-slash s) (ap (λ t. String.◌∷◌ c t) (drop_last-concat s))

starts_with_slash-concat : (s : String) → starts_with_slash (concat "/" s) ≡ true
starts_with_slash-concat s = ap starts_with_slash (cons-append "/" "" s)

-- One slash stands between the base and the endpoint, whether each of them brings its own or not.
pub build_url_lem :
    (base endpoint : String)
    → ends_with_slash base ≡ false
    → starts_with_slash endpoint ≡ false
    → (build_url base endpoint ≡ concat base (concat "/" endpoint))
      × (build_url (concat base "/") endpoint ≡ build_url base endpoint)
      × (build_url base (concat "/" endpoint) ≡ build_url base endpoint)
      × (build_url (concat base "/") (concat "/" endpoint) ≡ build_url base endpoint)
unfolding build_url
build_url_lem base endpoint b e =
    rw (b, e, ends_with_slash-concat base, drop_last-concat base, starts_with_slash-concat endpoint)
      (refl, refl, refl, refl)

-- The answer says that the session is over.
abbrev pub is_refused : {A : Type 0} → Fetched A → Bool
is_refused (failed message) = false
is_refused (answered r) = not r.ok && r.status == 401

Fetched-cases :
    {A : Type 0} (f : Fetched A)
    → ((m : Option String) × (f ≡ failed m)) ⊎ ((r : Response A) × (f ≡ answered r))
Fetched-cases (failed m) = inl (m, refl)
Fetched-cases (answered r) = inr (r, refl)

module _ (to_json : Persisted → String) (from_json : String → Option (Option String)) where
  sign_out_refused :
      {A : Type 0} (fetch : Request → Fetched A) (base endpoint method : String)
      (body : Option Body) (p : Page)
      → truthy? (get_access_token to_json from_json p) ≡ true
      → is_refused (fetch (asked base endpoint method body (get_access_token to_json from_json p)))
        ≡ true
      → (request to_json from_json fetch base endpoint method body p).0
        ≡ sign_out to_json from_json p
  unfolding request
  sign_out_refused fetch base endpoint method body p token refused =
      elim (Fetched-cases
        (fetch (asked base endpoint method body (get_access_token to_json from_json p)))) [
          | inl (m, e) ↦ let no = rw e at refused in absurd (cc no)
          | inr (r, e) ↦
              let over = rw e at refused in
              let ok : not r.ok ≡ true = ground arith in
              let status : (r.status == 401) ≡ true = ground arith in
              rw (e, request, ok, status, token) refl
        ]

  get_access_token-sign_out :
      ((q : Persisted) → from_json (to_json q) ≡ some q.access_token)
      → (p : Page) → get_access_token to_json from_json (sign_out to_json from_json p) ≡ none
  unfolding get_access_token get_persisted_access_token User.clear_auth User.set User.partialize
  get_access_token-sign_out read p =
      let s = p.auth.state in
      ground (
        arith,
        read (
            User.partialize (record s {
              user = none;
              access_token = none;
              refresh_token = none;
              is_authenticated = false;
              is_bootstrapping = false;
            })),
      )

  -- A request that had a token and is answered with 401 ends the session: if the JSON of a state reads
  -- back as its access token, no token is left for the next request, in the store or in the storage.
  pub request_refused :
      ((q : Persisted) → from_json (to_json q) ≡ some q.access_token)
      → {A : Type 0} (fetch : Request → Fetched A) (base endpoint method : String)
        (body : Option Body) (p : Page)
      → truthy? (get_access_token to_json from_json p) ≡ true
      → is_refused (fetch (asked base endpoint method body (get_access_token to_json from_json p)))
        ≡ true
      → get_access_token to_json from_json
          (request to_json from_json fetch base endpoint method body p).0
        ≡ none
  request_refused read fetch base endpoint method body p token refused =
      ap (get_access_token to_json from_json)
        (sign_out_refused fetch base endpoint method body p token refused)
      ∙ get_access_token-sign_out read p
