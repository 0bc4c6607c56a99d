-- ===== src/Identity/Guard/Credentials.antt =====
-- What makes an actor legitimate, and that the guard resolves nobody else.
use instacloud_oss.Base.{
  ℕ, ◌+◌, ◌≡◌, ◌<◌, ◌⊎◌, ◌++◌, ◌||◌, nat_eq, refl, ap, true, ◌∙◌, [], ◌∷◌, Option, none, some,
  string_instance, nat_instance, list_instance, ◌==◌, find, arith, eq_iff, Bool-cases, Option-cases,
  inl, inr,
}
use instacloud_oss.Identity.Sessions.{
  Text, AdminRow, SessionRow, TokenRow, IdentityState, AuthConfig, find_session, has_token,
}
use instacloud_oss.Identity.Sessions.Laws.{find_session-some}
use instacloud_oss.Identity.Keys.{token_prefix, verify_token, has_key}
use instacloud_oss.Identity.Keys.Laws.{verify_token-some}
use instacloud_oss.Identity.Cookie.{trim_text, split_on, read_session_cookie}
use instacloud_oss.Identity.Cookie.Laws.{SomeCarries, read_session_cookie-SomeCarries}
use instacloud_oss.GitDeploy.{units}
use instacloud_oss.Metrics.Window.{is_space, trim_start}
use instacloud_oss.Identity.Guard.{
  jwt, api, Source, bearer, cookie, Actor, Resolved, Request, Crypto, starts_with, after_word,
  bearer_rest, bearer_of, of_admin, of_session, of_row, of_key, of_bearer, of_cookie, of_request,
}

module _ (crypto : Crypto) (auth : AuthConfig) (now : ℕ) (i : IdentityState) where
  -- A session of the document, found by a token, that has not expired and is of the admin.
  abbrev pub LiveSession : AdminRow → Text → Type 0
  LiveSession admin token =
      (row : SessionRow) × (find (has_token crypto.sha256hex token) i.sessions ≡ some row)
      × (now < row.expires_at)
      × (row.user_id ≡ admin.id)

  -- A key of the document that is neither revoked nor expired.
  abbrev pub LiveKey : Text → Type 0
  LiveKey key =
      (row : TokenRow) × (find (has_key crypto.sha256hex key) i.tokens ≡ some row)
      × (row.revoked_at ≡ none)
      × ((t : ℕ) → row.expires_at ≡ some t → now < t)

  -- What a bearer of the header holds up: the word, a space and the token, in that order.
  abbrev pub SameLetters : Text → Text → Type 0
  SameLetters [] [] = Unit
  SameLetters [] (c ∷ cs) = ⊥
  SameLetters (p ∷ ps) [] = ⊥
  SameLetters (p ∷ ps) (c ∷ cs) = ((c ≡ p) ⊎ (c + 32 ≡ p)) × SameLetters ps cs

  abbrev pub Bears : Text → Text → Type 0
  Bears header token =
      (word : Text) × (c : ℕ) × (rest : Text) × (trim_text header ≡ word ++ (c ∷ rest))
      × SameLetters (units "bearer") word
      × (is_space c ≡ true)
      × (trim_text (trim_start rest) ≡ token)

  -- What makes an actor legitimate: a token that this very request carries. A cookie counts only
  -- where no bearer is given, and only with the daemon's signature.
  pub data Credential (req : Request) (admin : AdminRow) (a : Actor) : Type 0 where
    by_bearer :
        (header token : Text)
        → req.authorization ≡ some header
        → Bears header token
        → LiveSession admin token
        → a.via ≡ jwt
        → a.source ≡ bearer
        → Credential req admin a
    by_cookie :
        (header token : Text)
        → bearer_of req.authorization ≡ none
        → req.cookies ≡ some header
        → SomeCarries crypto.hmac_b64 crypto.encode crypto.decode auth token (split_on b';' header)
        → LiveSession admin token
        → a.via ≡ jwt
        → a.source ≡ cookie
        → Credential req admin a
    by_key :
        (header key : Text)
        → req.authorization ≡ some header
        → Bears header key
        → LiveKey key
        → a.via ≡ api
        → a.source ≡ bearer
        → Credential req admin a

  after_word-SameLetters :
      (ps cs rest : Text)
      → after_word ps cs ≡ some rest
      → (word : Text) × (cs ≡ word ++ rest) × SameLetters ps word
  unfolding after_word
  after_word-SameLetters [] cs rest h = ([], ground (arith, h), tt)
  after_word-SameLetters (p ∷ ps) [] rest h = cc
  after_word-SameLetters (p ∷ ps) (c ∷ cs) rest h =
      elim (Bool-cases (nat_eq c p || nat_eq (c + 32) p)) [
        | inl e ↦
            let (word, same, letters) = after_word-SameLetters ps cs rest (ground (arith, e, h)) in
            (c ∷ word, ap (λ x. c ∷ x) same, (ground (arith, e), letters))
        | inr e ↦ absurd (ground (arith, e, h))
      ]

  bearer_rest-some :
      (cs t : Text)
      → bearer_rest cs ≡ some t
      → (c : ℕ) × (rest : Text) × (cs ≡ c ∷ rest) × (is_space c ≡ true) × (trim_start rest ≡ t)
  bearer_rest-some [] t h = cc
  bearer_rest-some (c ∷ cs) t h = (c, cs, refl, ground (arith, h), ground (arith, h))

  bearer_of-Bears :
      (o : Option Text) (t : Text)
      → bearer_of o ≡ some t
      → (header : Text) × (o ≡ some header) × Bears header (trim_text t)
  unfolding bearer_of
  bearer_of-Bears none t h = cc
  bearer_of-Bears (some header) t h =
      elim (Option-cases (after_word (units "bearer") (trim_text header))) [
        | inl e ↦ absurd (ground (arith, e, h))
        | inr (cs, e) ↦
            let (word, whole, letters) =
              after_word-SameLetters (units "bearer") (trim_text header) cs e in
            let (c, rest, split, space, trimmed) = bearer_rest-some cs t (rw (e, bearer_of) at h) in
            (
              header,
              refl,
              (
                word,
                c,
                rest,
                whole ∙ ap (λ x. word ++ x) split,
                letters,
                space,
                ap trim_text trimmed,
              ),
            )
      ]

  -- An answer that resolves nobody, or the admin with a session by a token.
  abbrev OfSession : AdminRow → Source → Text → Option Resolved → Type 0
  OfSession admin source token none = Unit
  OfSession admin source token (some r) =
      (r.actor.user_id ≡ admin.id)
      × LiveSession admin token
      × (r.actor.via ≡ jwt)
      × (r.actor.source ≡ source)

  abbrev OfKey : AdminRow → Text → Option Resolved → Type 0
  OfKey admin key none = Unit
  OfKey admin key (some r) =
      (r.actor.user_id ≡ admin.id) × LiveKey key × (r.actor.via ≡ api) × (r.actor.source ≡ bearer)

  -- An answer that resolves nobody, or the admin with a credential.
  abbrev pub Vouched : Request → AdminRow → Option Resolved → Type 0
  Vouched req admin none = Unit
  Vouched req admin (some r) = (r.actor.user_id ≡ admin.id) × Credential req admin r.actor

  of_session-OfSession :
      (admin : AdminRow) (source : Source) (token : Text)
      → OfSession admin source token (of_session crypto auth now admin source token (some i)).0
  unfolding of_session of_admin
  of_session-OfSession admin source token =
      elim (Option-cases (find_session crypto.sha256hex auth now token (some i)).0) [
        | inl e ↦ rw (e, of_admin) tt
        | inr (r, e) ↦
            rw (e, of_admin)
              (elim (Bool-cases (r.user_id == admin.id)) [
                | inr f ↦ rw f tt
                | inl f ↦
                    let (j, old, k, found, h, live, same, user, slid) =
                      find_session-some crypto.sha256hex auth now token (some i) r e in
                    rw f (
                      (eq_iff r.user_id admin.id).0 f,
                      (
                        old,
                        ground (arith, k, found),
                        live,
                        ground (arith, f, user, eq_iff r.user_id admin.id),
                      ),
                      refl,
                      refl,
                    )
              ])
      ]

  of_key-OfKey :
      (admin : AdminRow) (key : Text)
      → OfKey admin key (of_key crypto auth now admin key (some i)).0
  unfolding of_key of_row
  of_key-OfKey admin key = elim (Option-cases (verify_token crypto.sha256hex now key (some i)).0) [
    | inl e ↦ rw (e, of_row) tt
    | inr (r, e) ↦
        let (j, row, k, found, shape, h, live, fresh, same) =
          verify_token-some crypto.sha256hex now key (some i) r e in
        rw (e, of_row) (refl, (row, ground (arith, k, found), live, fresh), refl, refl)
  ]

  module _ (req : Request) (admin : AdminRow) where
    OfSession-bearer :
        (header token : Text) (o : Option Resolved)
        → req.authorization ≡ some header
        → Bears header token
        → OfSession admin bearer token o
        → Vouched req admin o
    OfSession-bearer header token none k b h = tt
    OfSession-bearer header token (some r) k b (user, live, via, source) =
        (user, by_bearer header token k b live via source)

    OfKey-bearer :
        (header key : Text) (o : Option Resolved)
        → req.authorization ≡ some header
        → Bears header key
        → OfKey admin key o
        → Vouched req admin o
    OfKey-bearer header key none k b h = tt
    OfKey-bearer header key (some r) k b (user, live, via, source) =
        (user, by_key header key k b live via source)

    OfSession-cookie :
        (header token : Text) (o : Option Resolved)
        → bearer_of req.authorization ≡ none
        → req.cookies ≡ some header
        → SomeCarries crypto.hmac_b64 crypto.encode crypto.decode auth token (split_on b';' header)
        → OfSession admin cookie token o
        → Vouched req admin o
    OfSession-cookie header token none n k c h = tt
    OfSession-cookie header token (some r) n k c (user, live, via, source) =
        (user, by_cookie header token n k c live via source)

    of_bearer-Vouched :
        (header t : Text)
        → req.authorization ≡ some header
        → Bears header t
        → Vouched req admin (of_bearer crypto auth now admin t (some i)).0
    unfolding of_bearer
    of_bearer-Vouched header [] k b = tt
    of_bearer-Vouched header (c ∷ cs) k b = elim (Bool-cases (starts_with token_prefix (c ∷ cs))) [
      | inl e ↦ rw (e, of_bearer) (OfKey-bearer header (c ∷ cs) _ k b (of_key-OfKey admin (c ∷ cs)))
      | inr e ↦
          rw (e, of_bearer)
            (OfSession-bearer header (c ∷ cs) _ k b (of_session-OfSession admin bearer (c ∷ cs)))
    ]

    read_cookie-Vouched :
        (o : Option Text)
        → req.cookies ≡ o
        → bearer_of req.authorization ≡ none
        → Vouched req admin
            (of_cookie crypto auth now admin
              (read_session_cookie crypto.hmac_b64 crypto.encode crypto.decode auth o)
              (some i)).0
    unfolding of_cookie read_session_cookie
    read_cookie-Vouched none k n = tt
    read_cookie-Vouched (some header) k n =
        elim (Option-cases
          (read_session_cookie crypto.hmac_b64 crypto.encode crypto.decode auth (some header))) [
            | inl e ↦ rw (e, of_cookie) tt
            | inr (token, e) ↦
                rw (e, of_cookie)
                  (OfSession-cookie header token _ n k
                    (read_session_cookie-SomeCarries crypto.hmac_b64 crypto.encode crypto.decode
                      auth header token e)
                    (of_session-OfSession admin cookie token))
          ]

    pub of_request-Vouched : Vouched req admin (of_request crypto auth now admin req (some i)).0
    unfolding of_request
    of_request-Vouched = elim (Option-cases (bearer_of req.authorization)) [
      | inl e ↦ rw (e, of_request) (read_cookie-Vouched req.cookies refl e)
      | inr (t, e) ↦
          let (header, k, b) = bearer_of-Bears req.authorization t e in
          rw (e, of_request) (of_bearer-Vouched header (trim_text t) k b)
    ]
