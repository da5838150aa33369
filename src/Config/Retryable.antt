-- ===== src/Config/Retryable.antt =====
-- Which statuses a client that `New` built retries, from the options that set them.
use jttp.Prelude.{
  ℕ, ◌≡◌, refl, sym, ap, ◌∙◌, Bool, true, ◌&&◌, ◌||◌, none, some, List, [], ◌∷◌, ◌++◌, ◌==◌, any,
  map, arith, Bool-cases, inl, inr,
}
use jttp.Http.{Request, Response}
use jttp.Retry.{RetryTransport, has_code, has_method, should_retry}
use jttp.Config.{Config, defaults}
use jttp.Config.Options.{
  ClientOption, add_key, add_keys, apply_options, with_retryable_status_codes,
  with_additional_retryable_status_codes,
}
use jttp.Config.Client.{Client, BuildWorld}
use jttp.Config.Build.{correct_retries, clamp_timeouts, corrected, retry_of, assemble, base_of, new}
use jttp.Config.Waits.{assemble_on-some}

-- A code that is listed, in a list that is not changed.
has_code-known :
    (keys : List ℕ) (k x : ℕ)
    → has_code keys k ≡ true
    → has_code keys x ≡ (has_code keys x || k == x)
has_code-known keys k x h = elim (Bool-cases (k == x)) [
  | inl same ↦ let eq : k ≡ x = grind arith in ground (arith, ap (has_code keys) eq)
  | inr differs ↦ ground arith
]

has_code-append :
    (keys : List ℕ) (k x : ℕ) → has_code (keys ++ k ∷ []) x ≡ (has_code keys x || k == x)
has_code-append [] k x = ground arith
has_code-append (j ∷ keys) k x = ground (arith, has_code-append keys k x)

has_code-add_key :
    (keys : List ℕ) (k x : ℕ) → has_code (add_key ◌==◌ keys k) x ≡ (has_code keys x || k == x)
unfolding add_key
has_code-add_key keys k x = elim (Bool-cases (has_code keys k)) [
  | inl known ↦ rw known (has_code-known keys k x known)
  | inr fresh ↦ rw fresh (has_code-append keys k x)
]

has_code-add_keys :
    (keys ks : List ℕ) (x : ℕ)
    → has_code (add_keys ◌==◌ keys ks) x ≡ (has_code keys x || has_code ks x)
unfolding add_keys
has_code-add_keys keys [] x = ground arith
has_code-add_keys keys (k ∷ ks) x =
    ground (arith, has_code-add_keys (add_key ◌==◌ keys k) ks x, has_code-add_key keys k x)

-- A status of one of the lists.
abbrev pub in_lists : List (List ℕ) → ℕ → Bool
in_lists lists x = any (λ codes. has_code codes x) lists

module _ {H : Type 0} where
  apply_options-append :
      (os ps : List (ClientOption H)) (c : Config H)
      → apply_options (os ++ ps) c ≡ apply_options ps (apply_options os c)
  unfolding apply_options
  apply_options-append [] ps c = refl
  apply_options-append (o ∷ os) ps c = apply_options-append os ps (o c)

  codes-additional :
      (more : List (List ℕ)) (c : Config H) (x : ℕ)
      → has_code
          (apply_options (map with_additional_retryable_status_codes more) c).retryable_status_codes
          x
        ≡ (has_code c.retryable_status_codes x || in_lists more x)
  unfolding apply_options with_additional_retryable_status_codes
  codes-additional [] c x = ground arith
  codes-additional (codes ∷ more) c x = ground (
    arith,
    codes-additional more (with_additional_retryable_status_codes codes c) x,
    has_code-add_keys c.retryable_status_codes codes x,
  )

  options-codes :
      (before : List (ClientOption H)) (codes : List ℕ) (more : List (List ℕ)) (c : Config H)
      (x : ℕ)
      → has_code
          (apply_options
            (before
              ++ with_retryable_status_codes codes
                ∷ map with_additional_retryable_status_codes more)
            c).retryable_status_codes
          x
        ≡ in_lists (codes ∷ more) x
  unfolding apply_options with_retryable_status_codes
  options-codes before codes more c x =
      let set = apply_options before c in
      let last = with_retryable_status_codes codes set in
      ap (λ (d : Config H). has_code d.retryable_status_codes x)
        (apply_options-append before
          (with_retryable_status_codes codes ∷ map with_additional_retryable_status_codes more) c)
      ∙ (codes-additional more last x
          ∙ ap (λ b. b || in_lists more x) (has_code-add_keys [] codes x))

  retries-listed :
      (c : Config H) (req : Request) (resp : Response)
      → c.check_retry ≡ none
      → should_retry (retry_of (clamp_timeouts (correct_retries c))) req (some resp) none ≡ (
          has_method c.retryable_methods req.method
          && has_code c.retryable_status_codes resp.status_code)
  unfolding should_retry retry_of clamp_timeouts correct_retries
  retries-listed c req resp unchecked = rw unchecked (ground arith)

  -- In a client that is built with WithRetryableStatusCodes, followed by any number of
  -- WithAdditionalRetryableStatusCodes, and with no test of the caller, a response is retried exactly if the
  -- method of its request is listed and its status is in one of these lists, whatever the options before
  -- them have set, defaults included.
  pub new-retries :
      (w : BuildWorld H) (before : List (ClientOption H)) (codes : List ℕ) (more : List (List ℕ))
      (client : Client H) (req : Request) (resp : Response)
      → new w (
          before
          ++ with_retryable_status_codes codes ∷ map with_additional_retryable_status_codes more)
        ≡ some client
      → client.retry.check_retry ≡ none
      → should_retry client.retry req (some resp) none ≡ (
          has_method client.retry.retryable_methods req.method
          && in_lists (codes ∷ more) resp.status_code)
  unfolding new assemble clamp_timeouts correct_retries
  new-retries w before codes more client req resp e unchecked =
      let options =
        before
        ++ with_retryable_status_codes codes ∷ map with_additional_retryable_status_codes more in
      let c = corrected options in
      let (base, built, same) = assemble_on-some c (base_of w c c.transport) client e in
      let is : client.retry ≡ retry_of c = ap (λ (d : Client H). d.retry) same in
      let set = apply_options options defaults in
      let checked : set.check_retry ≡ none =
        unfold retry_of correct_retries clamp_timeouts in
        sym (ap (λ (t : RetryTransport). t.check_retry) is) ∙ unchecked in
      rw is (
        retries-listed set req resp checked
        ∙ ap (λ b. has_method set.retryable_methods req.method && b)
            (options-codes before codes more defaults resp.status_code))
