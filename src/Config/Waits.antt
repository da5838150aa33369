-- ===== src/Config/Waits.antt =====
-- What `New` guarantees of the settings that a caller got wrong.
use jttp.Prelude.{◌≡◌, refl, Option, none, some, List, arith}
use jttp.Prelude.Int.{ℤ, pos, ◌≤ℤ◌, ◌<ℤ◌, leb_ℤ, IsInt64}
use jttp.Retry.Backoff.Bounds.{HasValidWaits}
use jttp.Config.{Config, default_max_retry_after, defaults}
use jttp.Config.Options.{ClientOption, apply_options}
use jttp.Config.Client.{Client, Base, BuildWorld, default_if}
use jttp.Config.Build.{
  order_waits, correct_retries, clamp_timeouts, corrected, retry_of, assemble, assemble_on, base_of,
  new,
}

abbrev AreValid : ℤ × ℤ → Type 0
AreValid (low, high) = (pos 0 <ℤ low) × (low ≤ℤ high) × IsInt64 high

order_waits-AreValid : (low high : ℤ) → IsInt64 low → IsInt64 high → AreValid (order_waits low high)
unfolding order_waits
order_waits-AreValid low high p q = ground arith

after-positive : (d : ℤ) → pos 0 <ℤ default_if (leb_ℤ d (pos 0)) default_max_retry_after d
after-positive d = ground arith

module _ {H : Type 0} where
  -- The waits are int64 values, as every time.Duration is.
  pub record HasDurations (c : Config H) : Type 0 where
    pub min_int64 : IsInt64 c.retry_wait_min
    pub max_int64 : IsInt64 c.retry_wait_max

  retry_of-HasValidWaits :
      (c : Config H)
      → HasDurations c
      → HasValidWaits (retry_of (clamp_timeouts (correct_retries c)))
  unfolding retry_of clamp_timeouts correct_retries
  retry_of-HasValidWaits c h =
      let (low, le, high) =
        order_waits-AreValid c.retry_wait_min c.retry_wait_max h.min_int64 h.max_int64 in
      record {
        min_pos = low;
        min-le-max = le;
        in_range = high;
        after_pos = after-positive c.max_retry_after;
      }

  pub assemble_on-some :
      (c : Config H) (o : Option (Base H)) (client : Client H)
      → assemble_on c o ≡ some client
      → (base : Base H) × (o ≡ some base) × (client ≡ assemble c base)
  assemble_on-some c none client e = absurd (ground arith)
  assemble_on-some c (some base) client e = (base, refl, cc)

  -- Whatever the options set, the waits of a client are positive, in order and in range, and its cap on
  -- the server's hints is positive, if the options gave int64 values.
  pub new-HasValidWaits :
      (w : BuildWorld H) (options : List (ClientOption H)) (client : Client H)
      → HasDurations (apply_options options defaults)
      → new w options ≡ some client
      → HasValidWaits client.retry
  unfolding new
  new-HasValidWaits w options client h e =
      let c = corrected options in
      let (base, built, same) = assemble_on-some c (base_of w c c.transport) client e in
      rw same (unfold assemble in retry_of-HasValidWaits (apply_options options defaults) h)
