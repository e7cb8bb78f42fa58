-- ===== src/Message/Union/Safety.antt =====
-- `Message::decode` on any bytes.
use linode_moq.Prelude.{ℕ, ◌==◌}
use linode_moq.Coding.Buffer.{Buf}
use linode_moq.Coding.Rules.Ensures.{Ensures, Ensures-bind, Ensures-pure, Ensures-if, Ensures-fail}
use linode_moq.Coding.Varint.Integers.{u64_decode-Ensures}
use linode_moq.Message.Union.{
  body_decode, message_decode, subscribe_update, subscribe, unsubscribe, subscribe_ok,
  subscribe_error, subscribe_done, max_subscribe_id, announce, unannounce, announce_ok,
  announce_error, announce_cancel, track_status_request, track_status, go_away, subscribe_namespace,
  subscribe_namespace_ok, subscribe_namespace_error, unsubscribe_namespace, fetch, fetch_cancel,
  fetch_ok, fetch_error,
}
use linode_moq.Message.Union.Format.{MessageReceived}
use linode_moq.Message.SubscribeUpdate.{subscribe_update_decode-Ensures}
use linode_moq.Message.Subscribe.{subscribe_decode-Ensures}
use linode_moq.Message.Unsubscribe.{unsubscribe_decode-Ensures}
use linode_moq.Message.SubscribeOk.{subscribe_ok_decode-Ensures}
use linode_moq.Message.SubscribeError.{subscribe_error_decode-Ensures}
use linode_moq.Message.SubscribeDone.{subscribe_done_decode-Ensures}
use linode_moq.Message.MaxSubscribeId.{max_subscribe_id_decode-Ensures}
use linode_moq.Message.Announce.{announce_decode-Ensures}
use linode_moq.Message.Unannounce.{unannounce_decode-Ensures}
use linode_moq.Message.AnnounceOk.{announce_ok_decode-Ensures}
use linode_moq.Message.AnnounceError.{announce_error_decode-Ensures}
use linode_moq.Message.AnnounceCancel.{announce_cancel_decode-Ensures}
use linode_moq.Message.TrackStatusRequest.{track_status_request_decode-Ensures}
use linode_moq.Message.TrackStatus.{track_status_decode-Ensures}
use linode_moq.Message.GoAway.{go_away_decode-Ensures}
use linode_moq.Message.SubscribeNamespace.{subscribe_namespace_decode-Ensures}
use linode_moq.Message.SubscribeNamespaceOk.{subscribe_namespace_ok_decode-Ensures}
use linode_moq.Message.SubscribeNamespaceError.{subscribe_namespace_error_decode-Ensures}
use linode_moq.Message.UnsubscribeNamespace.{unsubscribe_namespace_decode-Ensures}
use linode_moq.Message.Fetch.{fetch_decode-Ensures}
use linode_moq.Message.FetchCancel.{fetch_cancel_decode-Ensures}
use linode_moq.Message.FetchOk.{fetch_ok_decode-Ensures}
use linode_moq.Message.FetchError.{fetch_error_decode-Ensures}

module _ {R : Type 0} ⦃b : Buf R⦄ where
  body_decode-Ensures : (t : ℕ) → Ensures b MessageReceived (body_decode t)
  unfolding body_decode
  body_decode-Ensures t =
      Ensures-if (t == 0x2)
        (λ _.
          Ensures-bind _ subscribe_update_decode-Ensures λ m k. Ensures-pure (subscribe_update m) k)
        λ _.
          Ensures-if (t == 0x3)
            (λ _. Ensures-bind _ subscribe_decode-Ensures λ m k. Ensures-pure (subscribe m) k)
            λ _.
              Ensures-if (t == 0xa)
                (λ _.
                  Ensures-bind _ unsubscribe_decode-Ensures λ m k. Ensures-pure (unsubscribe m) k)
                λ _.
                  Ensures-if (t == 0x4)
                    (λ _.
                      Ensures-bind _ subscribe_ok_decode-Ensures
                        λ m k. Ensures-pure (subscribe_ok m) k)
                    λ _.
                      Ensures-if (t == 0x5)
                        (λ _.
                          Ensures-bind _ subscribe_error_decode-Ensures
                            λ m k. Ensures-pure (subscribe_error m) k)
                        λ _.
                          Ensures-if (t == 0xb)
                            (λ _.
                              Ensures-bind _ subscribe_done_decode-Ensures
                                λ m k. Ensures-pure (subscribe_done m) k)
                            λ _.
                              Ensures-if (t == 0x15)
                                (λ _.
                                  Ensures-bind _ max_subscribe_id_decode-Ensures
                                    λ m k. Ensures-pure (max_subscribe_id m) k)
                                λ _.
                                  Ensures-if (t == 0x6)
                                    (λ _.
                                      Ensures-bind _ announce_decode-Ensures
                                        λ m k. Ensures-pure (announce m) k)
                                    λ _.
                                      Ensures-if (t == 0x9)
                                        (λ _.
                                          Ensures-bind _ unannounce_decode-Ensures
                                            λ m k. Ensures-pure (unannounce m) k)
                                        λ _.
                                          Ensures-if (t == 0x7)
                                            (λ _.
                                              Ensures-bind _ announce_ok_decode-Ensures
                                                λ m k. Ensures-pure (announce_ok m) k)
                                            λ _.
                                              Ensures-if (t == 0x8)
                                                (λ _.
                                                  Ensures-bind _ announce_error_decode-Ensures
                                                    λ m k. Ensures-pure (announce_error m) k)
                                                λ _.
                                                  Ensures-if (t == 0xc)
                                                    (λ _.
                                                      Ensures-bind _ announce_cancel_decode-Ensures
                                                        λ m k. Ensures-pure (announce_cancel m) k)
                                                    λ _.
                                                      Ensures-if (t == 0xd)
                                                        (λ _.
                                                          Ensures-bind _
                                                            track_status_request_decode-Ensures
                                                            λ m k.
                                                            Ensures-pure (track_status_request m) k)
                                                        λ _.
                                                          Ensures-if (t == 0xe)
                                                            (λ _.
                                                            Ensures-bind _
                                                            track_status_decode-Ensures
                                                            λ m k. Ensures-pure (track_status m) k)
                                                            λ _.
                                                            Ensures-if (t == 0x10)
                                                            (λ _.
                                                            Ensures-bind _ go_away_decode-Ensures
                                                            λ m k. Ensures-pure (go_away m) k)
                                                            λ _.
                                                            Ensures-if (t == 0x11)
                                                            (λ _.
                                                            Ensures-bind _
                                                            subscribe_namespace_decode-Ensures
                                                            λ m k.
                                                            Ensures-pure (subscribe_namespace m) k)
                                                            λ _.
                                                            Ensures-if (t == 0x12)
                                                            (λ _.
                                                            Ensures-bind _
                                                            subscribe_namespace_ok_decode-Ensures
                                                            λ m k.
                                                            Ensures-pure (subscribe_namespace_ok m)
                                                            k)
                                                            λ _.
                                                            Ensures-if (t == 0x13)
                                                            (λ _.
                                                            Ensures-bind _
                                                            subscribe_namespace_error_decode-Ensures
                                                            λ m k.
                                                            Ensures-pure
                                                            (subscribe_namespace_error m) k)
                                                            λ _.
                                                            Ensures-if (t == 0x14)
                                                            (λ _.
                                                            Ensures-bind _
                                                            unsubscribe_namespace_decode-Ensures
                                                            λ m k.
                                                            Ensures-pure (unsubscribe_namespace m)
                                                            k)
                                                            λ _.
                                                            Ensures-if (t == 0x16)
                                                            (λ _.
                                                            Ensures-bind _ fetch_decode-Ensures
                                                            λ m k. Ensures-pure (fetch m) k)
                                                            λ _.
                                                            Ensures-if (t == 0x17)
                                                            (λ _.
                                                            Ensures-bind _
                                                            fetch_cancel_decode-Ensures
                                                            λ m k. Ensures-pure (fetch_cancel m) k)
                                                            λ _.
                                                            Ensures-if (t == 0x18)
                                                            (λ _.
                                                            Ensures-bind _ fetch_ok_decode-Ensures
                                                            λ m k. Ensures-pure (fetch_ok m) k)
                                                            λ _.
                                                            Ensures-if (t == 0x19)
                                                            (λ _.
                                                            Ensures-bind _
                                                            fetch_error_decode-Ensures
                                                            λ m k. Ensures-pure (fetch_error m) k)
                                                            λ _. Ensures-fail _

  pub message_decode-Ensures : Ensures b MessageReceived message_decode
  unfolding message_decode
  message_decode-Ensures =
      Ensures-bind _ u64_decode-Ensures
        λ t _. Ensures-bind _ u64_decode-Ensures λ _ _. body_decode-Ensures t
