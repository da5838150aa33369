-- ===== src/Safety/Bodies.antt =====
-- The response that a safety transport gives, and what a caller gets from its body.
use jttp.Prelude.{
  Bool, false, ◌&&◌, ◌||◌, ℕ, ◌+◌, ◌^◌, ◌<◌, ◌≡◌, refl, sym, ap, ◌∙◌, true, Option, none, some,
  List, [], arith, if◌then◌else◌, All, Bool-cases, inl, inr,
}
use jttp.Prelude.Int.{pos, negsuc}
use jttp.Errors.{GoError, Result, ok, err}
use jttp.Http.{Header, equal_fold, Request, Response, codes, get, del}
use jttp.Redirect.Headers.{get-del, same_header}
use jttp.Ip.{Bytes}
use jttp.Guard.Source.{InnerRead, count_reads, new_counting_reader}
use jttp.Guard.Body.{GuardedBodyConfig, GuardedBody, ReadStep, FloatWorld}
use jttp.Guard.Body.Compressed.{header_bytes, HasTotal, count_reads-total}
use jttp.Guard.Body.Life.{new_guarded_body, fresh_body, gzip_body}
use jttp.Guard.Body.Limit.{consume, IsLimited, consume-IsLimited}
use jttp.Config.Client.{SafetyConfig}
use jttp.Safety.{
  Forwarded, SafeResponse, SafetyWorld, forward, decompresses, without_encoding, guard_config,
  after_guard, after_next, preflight, after_preflight, safe_round_trip, is_some,
}

-- A new body: nothing is read but the header of gzip, and it decompresses as its configuration says.
pub record IsFreshBody (cfg : GuardedBodyConfig) (header : Result (List InnerRead))
    (b : GuardedBody) : Type 0 where
  pub unread : b.read_bytes ≡ pos 0
  pub decompressing : is_some b.compressed ≡ cfg.decompress_gzip
  pub unclosed : b.close_result ≡ none
  pub counts_header :
      header_bytes header < 2 ^ 63 → HasTotal cfg.decompress_gzip b.compressed (header_bytes header)

gzip_body-IsFreshBody :
    (cfg : GuardedBodyConfig) (r : Result (List InnerRead)) (b : GuardedBody)
    → cfg.decompress_gzip ≡ true
    → gzip_body cfg r ≡ ok b
    → IsFreshBody cfg r b
gzip_body-IsFreshBody cfg (err e) b h p = absurd (ground arith)
gzip_body-IsFreshBody cfg (ok reads) b h p =
    let same : b ≡ fresh_body cfg (some (count_reads new_counting_reader reads)) = cc in
    rw same (record {
      unread = refl;
      decompressing = sym h;
      unclosed = refl;
      counts_header = λ small.
          rw h (
            count_reads-total new_counting_reader reads 0 refl (omega arith)
            ∙ ap pos (omega arith));
    })

new_guarded_body-IsFreshBody :
    (cfg : GuardedBodyConfig) (r : Result (List InnerRead)) (b : GuardedBody)
    → new_guarded_body cfg r ≡ ok b
    → IsFreshBody cfg r b
unfolding new_guarded_body
new_guarded_body-IsFreshBody cfg r b p = elim (Bool-cases cfg.decompress_gzip) [
  | inl gzip ↦ gzip_body-IsFreshBody cfg r b gzip (rw gzip at p)
  | inr raw ↦
      let same : b ≡ fresh_body cfg none = ground arith in
      rw same (record {
        unread = refl;
        decompressing = sym raw;
        unclosed = refl;
        counts_header = λ small. rw raw tt;
      })
]

-- The names of the two headers that describe the encoded body, in any case of letters.
abbrev pub of_encoding : Bytes → Bool
of_encoding name =
    same_header (codes "Content-Encoding") name || same_header (codes "Content-Length") name

get-del_encoding :
    (h : Header) (name : Bytes)
    → get (del (del h (codes "Content-Encoding")) (codes "Content-Length")) name
      ≡ (if of_encoding name then [] else get h name)
get-del_encoding h name = ground (
  arith,
  get-del (del h (codes "Content-Encoding")) (codes "Content-Length") name,
  get-del h (codes "Content-Encoding") name,
)

module _ {H : Type 0} where
  -- What the response of a round trip is made of.
  pub record IsMadeOf (w : SafetyWorld) (cfg : SafetyConfig H) (req : Request) (resp : Response)
      (r : SafeResponse) : Type 0 where
    pub answered : w.next (forward cfg req) ≡ ok resp
    pub response_is : r.response ≡ without_encoding cfg resp
    pub config_is : r.guard_config ≡ guard_config cfg w.now req resp
    pub fresh : IsFreshBody r.guard_config (w.gzip_reader resp.body) r.guard

  after_guard_ok :
      (cfg : SafetyConfig H) (f : Forwarded) (resp : Response) (body_cfg : GuardedBodyConfig)
      (o : Result GuardedBody) (r : SafeResponse)
      → (after_guard cfg f resp body_cfg o).0 ≡ ok r
      → (b : GuardedBody) × (o ≡ ok b)
        × (r ≡ record { response = resp; guard_config = body_cfg; guard = b })
  after_guard_ok cfg f resp body_cfg (ok b) r e = (b, refl, cc)
  after_guard_ok cfg f resp body_cfg (err x) r e = absurd (ground arith)

  after_next-IsMadeOf :
      (w : SafetyWorld) (cfg : SafetyConfig H) (req : Request) (o : Result Response)
      (r : SafeResponse)
      → w.next (forward cfg req) ≡ o
      → (after_next w cfg req (forward cfg req) o).0 ≡ ok r
      → (resp : Response) × IsMadeOf w cfg req resp r
  after_next-IsMadeOf w cfg req (err x) r n e = absurd (ground arith)
  after_next-IsMadeOf w cfg req (ok resp) r n e =
      let body_cfg = guard_config cfg w.now req resp in
      let o = new_guarded_body body_cfg (w.gzip_reader resp.body) in
      let (b, made, same) =
        after_guard_ok cfg (forward cfg req) (without_encoding cfg resp) body_cfg o r e in
      (
        resp,
        rw same (record {
          answered = n;
          response_is = refl;
          config_is = refl;
          fresh = new_guarded_body-IsFreshBody body_cfg (w.gzip_reader resp.body) b made;
        }),
      )

  pub safe_round_trip-IsMadeOf :
      (w : SafetyWorld) (cfg : SafetyConfig H) (req : Request) (r : SafeResponse)
      → (safe_round_trip w cfg req).0 ≡ ok r
      → (resp : Response) × IsMadeOf w cfg req resp r
  unfolding safe_round_trip
  safe_round_trip-IsMadeOf w cfg req r e = made (preflight w cfg req) e
    where
      made :
          (o : Option GoError)
          → (after_preflight w cfg req o).0 ≡ ok r
          → (resp : Response) × IsMadeOf w cfg req resp r
      made none p = after_next-IsMadeOf w cfg req (w.next (forward cfg req)) r refl p
      made (some x) p = absurd (ground arith)

  -- With a positive limit on the size, a caller that reads the body of a response of the safety transport
  -- until it is given an error gets at most maxBytes bytes in all, or the error is ErrResponseTooLarge,
  -- whatever the source, the clock and the context do, if the reads do not overflow the count.
  pub safe_round_trip-IsLimited :
      (w : SafetyWorld) (cfg : SafetyConfig H) (req : Request) (r : SafeResponse)
      (floats : FloatWorld) (m : ℕ) (steps : List ReadStep)
      → (safe_round_trip w cfg req).0 ≡ ok r
      → cfg.max_bytes ≡ pos m
      → 0 < m
      → All (λ s. m + s.count < 2 ^ 63) steps
      → (let (n, e) = consume floats r.guard_config r.guard steps in IsLimited m 0 n e)
  safe_round_trip-IsLimited w cfg req r floats m steps e limit m_pos small =
      let (resp, made) = safe_round_trip-IsMadeOf w cfg req r e in
      consume-IsLimited floats r.guard_config m
        (ap (λ (c : GuardedBodyConfig). c.max_bytes) made.config_is ∙ limit) m_pos r.guard steps 0
        made.fresh.unread (omega arith) small

  pub IsMadeOf-next :
      (w : SafetyWorld) (cfg : SafetyConfig H) (req : Request) (resp other : Response)
      (r : SafeResponse)
      → IsMadeOf w cfg req other r
      → w.next (forward cfg req) ≡ ok resp
      → IsMadeOf w cfg req resp r
  IsMadeOf-next w cfg req resp other r made n =
      let same : other ≡ resp = cc (made.answered, n) in rw (← same) made

  without_encoding-encoding :
      (cfg : SafetyConfig H) (resp : Response) (gzip : Bool) (name : Bytes)
      → decompresses cfg resp ≡ gzip
      → (get (without_encoding cfg resp).header name
          ≡ (if gzip && of_encoding name then [] else get resp.header name))
        × ((without_encoding cfg resp).content_length
            ≡ (if gzip then negsuc 0 else resp.content_length))
        × ((without_encoding cfg resp).status_code ≡ resp.status_code)
  without_encoding-encoding cfg resp true name is =
      rw is (get-del_encoding resp.header name, refl, refl)
  without_encoding-encoding cfg resp false name is = rw is (refl, refl, refl)

  -- Let `gzip` say whether compression is enabled and the response of the next transport has the
  -- Content-Encoding gzip, in any case of letters. If so, the response that the caller gets has no
  -- Content-Encoding and no Content-Length, an unknown length, and a body that decompresses; if not, its
  -- length is unchanged and its body does not decompress. Each other header keeps its value, and each
  -- header does if `gzip` is false. The status is unchanged, and nothing of the body has been read.
  pub safe_round_trip-encoding :
      (w : SafetyWorld) (cfg : SafetyConfig H) (req : Request) (resp : Response) (r : SafeResponse)
      (gzip : Bool) (name : Bytes)
      → w.next (forward cfg req) ≡ ok resp
      → (safe_round_trip w cfg req).0 ≡ ok r
      → gzip ≡ (
          cfg.compression_enabled
          && equal_fold (get resp.header (codes "Content-Encoding")) (codes "gzip"))
      → (get r.response.header name
          ≡ (if gzip && of_encoding name then [] else get resp.header name))
        × (r.response.content_length ≡ (if gzip then negsuc 0 else resp.content_length))
        × (is_some r.guard.compressed ≡ gzip)
        × (r.response.status_code ≡ resp.status_code)
        × (r.guard.read_bytes ≡ pos 0)
  safe_round_trip-encoding w cfg req resp r gzip name n e g =
      let (other, m) = safe_round_trip-IsMadeOf w cfg req r e in
      let made = IsMadeOf-next w cfg req resp other r m n in
      let is : decompresses cfg resp ≡ gzip = sym g in
      let body : is_some r.guard.compressed ≡ gzip =
        made.fresh.decompressing
        ∙ (ap (λ (c : GuardedBodyConfig). c.decompress_gzip) made.config_is ∙ is) in
      let (header, length, status) = without_encoding-encoding cfg resp gzip name is in
      rw made.response_is (header, length, body, status, made.fresh.unread)
