-- ===== src/Handlers/Hosts.antt =====
-- Where `http_post` may send.
use platform_forge.Models.{Value}
use platform_forge.Handlers.{StepContext}
use platform_forge.Handlers.Http.{
  Request, Reply, Url, http_post, request_of, bound_hosts, text_eq, is_http, host_of, url_of,
}
use platform_forge.Config.{allowed_hosts, hosts_of, split_comma}
use platform_forge.Schema.{Text, strip, is_empty}
use platform_forge.Prelude.{
  ℕ, Bool, List, [], ◌∷◌, String, false, inr, Option, Result-cases, arith, here, any, In,
  Bool-cases, ok, In-cons-cases, there, ◌≡◌, refl, Result, inl, true, ◌≢◌, any-true, ap, length,
  ◌&&◌, ◌∙◌, err, some,
}

text_eq-eq : (s t : Text) → text_eq s t ≡ true → s ≡ t
unfolding text_eq
text_eq-eq [] [] h = refl
text_eq-eq [] (c ∷ t) h = absurd (ground arith)
text_eq-eq (c ∷ s) [] h = absurd (ground arith)
text_eq-eq (c ∷ s) (d ∷ t) h =
    let same = text_eq-eq s t (ground arith) in let first : c ≡ d = ground arith in cc

-- A host of the setting is a part of it between commas, stripped and in lower case, that is not blank.
In-hosts_of-cases :
    (lower : Text → Text) (parts : List Text) (host : Text)
    → In host (hosts_of lower parts)
    → (part : Text) × In part parts × (is_empty (strip part) ≡ false) × (host ≡ lower (strip part))
unfolding hosts_of
In-hosts_of-cases lower [] host m = absurd (elim m [ ])
In-hosts_of-cases lower (p ∷ rest) host m = elim (Bool-cases (is_empty (strip p))) [
  | inl t ↦
      let (part, k, e, same) = In-hosts_of-cases lower rest host (rw t at m) in
      (part, there k, e, same)
  | inr f ↦ elim (In-cons-cases _ (rw f at m)) [
    | inl same ↦ (p, here, f, same)
    | inr n ↦
        let (part, k, e, same) = In-hosts_of-cases lower rest host n in (part, there k, e, same)
  ]
]

module _ {T : Type 0} (str_of : Value → String) (float_of : Value → Result String T)
    (lower : Text → Text) (urlparse : String → Result String Url) (repr : Text → String)
    (post : Request T → Reply) (raise_for_status : ℕ → Option String) where
  -- A request that is sent.
  record IsAllowed (settings : Option Text) (ctx : StepContext) (r : Request T) : Type 0 where
    parsed : Url
    reads : urlparse r.url ≡ ok parsed
    scheme : is_http parsed.scheme ≡ true
    host : In (lower (host_of parsed.hostname)) (bound_hosts lower settings)
    key : r.idempotency_key ≡ ctx.idempotency_key
    token : r.fencing_token ≡ ctx.fencing_token

  request_same :
      (url : String) (ctx : StepContext) (r : Request T)
      → request_of str_of float_of url ctx ≡ ok r
      → (r.url ≡ url)
        × (r.idempotency_key ≡ ctx.idempotency_key)
        × (r.fencing_token ≡ ctx.fencing_token)
  unfolding request_of
  request_same url ctx r e = ground arith

  module _ (settings : Option Text) (ctx : StepContext) where
    abbrev sent : List (Request T)
    sent = (http_post str_of float_of lower urlparse repr post raise_for_status settings ctx).1

    abbrev listed : Url → Bool
    listed u = any (text_eq (lower (host_of u.hostname))) (bound_hosts lower settings)

    unread_silent : (e : String) → urlparse (url_of str_of ctx) ≡ err e → sent ≡ []
    unfolding http_post
    unread_silent e h = ground arith

    refused_silent :
        (u : Url)
        → urlparse (url_of str_of ctx) ≡ ok u
        → (is_http u.scheme && listed u) ≡ false
        → sent ≡ []
    unfolding http_post
    refused_silent u h f = ground arith

    invalid_silent :
        (u : Url) (e : String)
        → urlparse (url_of str_of ctx) ≡ ok u
        → request_of str_of float_of (url_of str_of ctx) ctx ≡ err e
        → sent ≡ []
    unfolding http_post
    invalid_silent u e h k = ground arith

    let_through :
        (u : Url) (r : Request T)
        → urlparse (url_of str_of ctx) ≡ ok u
        → (is_http u.scheme && listed u) ≡ true
        → request_of str_of float_of (url_of str_of ctx) ctx ≡ ok r
        → sent ≡ r ∷ []
    unfolding http_post
    let_through u r h t k = ground arith

    nothing_in : (r : Request T) → In r sent → sent ≢ []
    nothing_in r m e = elim (rw e at m) [ ]

    one_sent : (r : Request T) → In r sent → length sent ≡ 1
    unfolding http_post
    one_sent r m = ground (arith, nothing_in r m)

    sent-IsAllowed : (r : Request T) → In r sent → IsAllowed settings ctx r
    sent-IsAllowed r m = elim (Result-cases (urlparse (url_of str_of ctx))) [
      | inl (e, h) ↦ absurd (nothing_in r m (unread_silent e h))
      | inr (u, h) ↦ elim (Bool-cases (is_http u.scheme && listed u)) [
        | inr f ↦ absurd (nothing_in r m (refused_silent u h f))
        | inl t ↦ elim (Result-cases (request_of str_of float_of (url_of str_of ctx) ctx)) [
          | inl (e, k) ↦ absurd (nothing_in r m (invalid_silent u e h k))
          | inr (q, k) ↦
              let all = let_through u q h t k in
              let (url, key, token) = request_same (url_of str_of ctx) ctx q k in
              let (host, mh, eh) =
                any-true (text_eq (lower (host_of u.hostname))) (bound_hosts lower settings)
                  (ground arith) in
              let only : r ≡ q = elim (In-cons-cases [] (rw all at m)) [
                | inl same ↦ same
                | inr none_left ↦ absurd (elim none_left [ ])
              ] in
              rw only (record {
                parsed = u;
                reads = ap urlparse url ∙ h;
                scheme = ground arith;
                host = rw (text_eq-eq (lower (host_of u.hostname)) host eh) mh;
                key = key;
                token = token;
              })
        ]
      ]
    ]

  -- A request that `http_post` sends is to an http or https URL, whose host in lower case is a part, between
  -- commas, stripped and in lower case, of the setting ALLOWED_HTTP_HOSTS that was bound; and it carries
  -- the idempotency key and the fencing token of the step. Then it is the only one.
  pub http_post-IsAllowed :
      (allowed_http_hosts : Text) (ctx : StepContext) (r : Request T)
      → In r (sent (some allowed_http_hosts) ctx)
      → (length (sent (some allowed_http_hosts) ctx) ≡ 1)
        × (r.idempotency_key ≡ ctx.idempotency_key)
        × (r.fencing_token ≡ ctx.fencing_token)
        × (u : Url) × (part : Text) × (urlparse r.url ≡ ok u)
        × (is_http u.scheme ≡ true)
        × In part (split_comma allowed_http_hosts)
        × (is_empty (strip part) ≡ false)
        × (lower (host_of u.hostname) ≡ lower (strip part))
  unfolding bound_hosts allowed_hosts
  http_post-IsAllowed allowed_http_hosts ctx r m =
      let a = sent-IsAllowed (some allowed_http_hosts) ctx r m in
      let (part, mp, full, same) =
        In-hosts_of-cases lower (split_comma allowed_http_hosts) (lower (host_of a.parsed.hostname))
          a.host in
      (
        one_sent (some allowed_http_hosts) ctx r m,
        a.key,
        a.token,
        a.parsed,
        part,
        a.reads,
        a.scheme,
        mp,
        full,
        same,
      )
