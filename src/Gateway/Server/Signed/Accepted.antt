-- ===== src/Gateway/Server/Signed/Accepted.antt =====
-- packages/gateway/src/gateway.ts: the posts that `post` accepts.
use nexnet.Common.{
  ℕ, ◌-◌, take, drop, length, suc, ◌≡◌, some, [], ◌∷◌, ◌++◌, Result, ok, Bytes, codes, map,
  filter_by,
}
use nexnet.Gateway.Bodies.{ChannelId}
use nexnet.Gateway.Store.{NewMessage, StoredMessage}
use nexnet.Gateway.State.{
  Gateway, GatewayConfig, Runtime, ErrorCode, PublicMessage, channel_message, hex_bytes,
}
use nexnet.Chain.State.{Chain}
use nexnet.Chain.Identity.{get_identity}
use nexnet.Gateway.Sessions.{short_identity, username_of}
use nexnet.Gateway.Channels.{listens, expire_channel}
use nexnet.Gateway.Server.Signed.{Signed}

-- The message that a row is shown as, with the user name of its identity on the chain.
pub record Shows (chain : Chain) (row : StoredMessage) (public : PublicMessage) : Type 0 where
  id : public.id ≡ row.message.event_id
  channel : public.channel ≡ row.message.channel
  author : public.author ≡ row.message.identity
  short :
      public.short
      ≡ codes "nx1"
        ++ (take 4 row.message.identity
            ++ (0x2026 ∷ drop (length row.message.identity - 4) row.message.identity))
  username :
      (identity : Bytes)
      → hex_bytes row.message.identity ≡ some identity
      → public.username ≡ username_of (get_identity identity chain)
  body : public.body ≡ row.message.body
  at : public.at ≡ row.message.created_at
  seq : public.seq ≡ row.seq

abbrev shown : Chain → Bytes → StoredMessage → PublicMessage
shown chain identity row = record {
  id = row.message.event_id;
  channel = row.message.channel;
  author = row.message.identity;
  short = short_identity row.message.identity;
  username = username_of (get_identity identity chain);
  body = row.message.body;
  at = row.message.created_at;
  seq = row.seq;
}

module _ (runtime : Runtime) (config : GatewayConfig) (now : ℕ) where
  -- The row and the message that a post gives, and who is sent it.
  pub record Published (channel : ChannelId) (message : NewMessage) (before : Gateway)
      (answer : Gateway × Result ErrorCode PublicMessage) : Type 0 where
    row : StoredMessage
    public : PublicMessage
    is_message : row.message ≡ message
    is_next : row.seq ≡ suc before.store.last_seq
    answers : answer.1 ≡ ok public
    shows : Shows before.chain row public
    stored :
        answer.0.store.messages
        ≡ (expire_channel config now channel before).store.messages ++ (row ∷ [])
    sent :
        answer.0.sent
        ≡ before.sent
          ++ map
              (λ e. (e.0, channel_message channel public))
              (filter_by (λ e. listens channel e.1) before.sockets)
