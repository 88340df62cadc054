-- ===== src/Blsagg/Collector/Rounds.antt =====
-- Single rounds of the goroutine of aggregator/blsagg/message_blsagg.go.
use near_sffl.Prelude.{◌≡◌}
use near_sffl.Interface.{Bls, MessageType}
use near_sffl.Blsagg.Response.{GetIndices}
use near_sffl.Blsagg.Collector.{
  Collector, pre_threshold, returned, timer, respond, expired_response,
  handle_signed_message_pre_threshold, dispatch, step,
}

module _ (b : Bls) (t : MessageType) where
  pub step_expired :
      (c : Collector b t) (g : GetIndices)
      → c.phase ≡ pre_threshold
      → step b t c (timer g) ≡ record (respond b t c (expired_response b t c)) { phase = returned }
  unfolding step handle_signed_message_pre_threshold
  step_expired c g p = rw (p, dispatch)
