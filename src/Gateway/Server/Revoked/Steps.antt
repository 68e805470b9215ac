-- ===== src/Gateway/Server/Revoked/Steps.antt =====
-- A revoked device stays silenced through both steps of a method that awaits its body.
use nexnet.Common.{ℕ, ◌≡◌, sym, ◌∙◌, Bool-cases, Option-cases, inl, inr, List, Bytes, to_hex}
use nexnet.Common.Hex.{IsBytes}
use nexnet.Common.Map
use nexnet.Common.Map.{Map, text_key, object_key, get-set, get-delete}
use nexnet.Gateway.Store.{NewMessage, StoredMessage}
use nexnet.Gateway.State.{Gateway, GatewayConfig, Runtime}
use nexnet.Gateway.Bodies.{channel_text}
use nexnet.Gateway.Streams.{socket_timeout}
use nexnet.Gateway.Server.{
  Suspended, awaits_ssh, awaits_passkey, awaits_revocation, awaits_challenge, awaits_verification,
  awaits_post, Arrival, ssh_arrives, passkey_arrives, revocation_arrives, challenge_arrives,
  verification_arrives, post_arrives, BodyRead, begin, begin_register_passkey, finish,
}
use nexnet.Gateway.Server.Holds.{
  Holds, Holds-state, bind-Holds, seq-Kept, done-Holds, throw_when-Kept,
}
use nexnet.Gateway.Server.Revoked.{Silenced, authenticate_bearer-Holds}
use nexnet.Gateway.Server.Revoked.Accounts.{
  limit_mutation-Kept, finish_register_ssh-Kept, finish_register_passkey-Kept, finish_revoke-Kept,
}
use nexnet.Gateway.Server.Revoked.SignIn.{
  limit_challenge-Kept, finish_issue_challenge-Kept, finish_verify_challenge-Kept,
}
use nexnet.Gateway.Server.Revoked.Posts.{finish_post-Kept}

module _ (runtime : Runtime) (config : GatewayConfig) where
  module _ (identity_id device_id : Bytes) (old : List StoredMessage) (late : NewMessage → Type 0)
      (ids : IsBytes identity_id × IsBytes device_id) where
    abbrev Quiet : Gateway → Type 0
    Quiet = Silenced identity_id device_id old late

    pub socket_timeout-Quiet : (ws : ℕ) (g : Gateway) → Quiet g → Quiet (socket_timeout ws g)
    unfolding socket_timeout
    socket_timeout-Quiet ws g v = elim (Option-cases (Map.get g.sockets ws)) [
      | inl absent ↦ rw (socket_timeout, absent) v
      | inr (socket, present) ↦ elim (Bool-cases socket.ready) [
        | inl ready ↦ rw (socket_timeout, present, ready) v
        | inr waiting ↦ rw (socket_timeout, present, waiting) v
      ]
    ]

    -- What holds of a method that awaits its body.
    unfoldable pub Harmless : Suspended → Type 0
    Harmless (awaits_post channel authenticated) =
        (m : NewMessage)
        → m.channel ≡ channel_text channel
        → m.identity ≡ authenticated.0.identity
        → m.device ≡ authenticated.0.device
        → m.identity ≡ to_hex identity_id
        → m.device ≡ to_hex device_id
        → late m
    Harmless _ = Unit

    pub begin-Harmless :
        (now : ℕ) (arrival : Arrival) → Holds Quiet (begin runtime config now arrival) Harmless
    unfolding begin begin_register_passkey Harmless
    begin-Harmless now (ssh_arrives ip) =
        seq-Kept Quiet _ _ (limit_mutation-Kept identity_id device_id old late runtime now ip)
          (done-Holds Quiet awaits_ssh tt)
    begin-Harmless now (passkey_arrives ip) =
        seq-Kept Quiet _ _
          (seq-Kept Quiet _ _ (limit_mutation-Kept identity_id device_id old late runtime now ip)
            (throw_when-Kept Quiet _ _))
          (done-Holds Quiet awaits_passkey tt)
    begin-Harmless now (revocation_arrives ip) =
        seq-Kept Quiet _ _ (limit_mutation-Kept identity_id device_id old late runtime now ip)
          (done-Holds Quiet awaits_revocation tt)
    begin-Harmless now (challenge_arrives ip) =
        seq-Kept Quiet _ _ (limit_challenge-Kept identity_id device_id old late now ip)
          (done-Holds Quiet awaits_challenge tt)
    begin-Harmless now (verification_arrives ip) =
        seq-Kept Quiet _ _ (limit_challenge-Kept identity_id device_id old late now ip)
          (done-Holds Quiet awaits_verification tt)
    begin-Harmless now (post_arrives channel bearer) =
        bind-Holds Quiet _ _
          (authenticate_bearer-Holds identity_id device_id old late ids runtime now bearer)
          (λ authenticated other.
            done-Holds Quiet (awaits_post channel authenticated)
              (λ m _ i d same_i same_d. absurd (other (sym i ∙ same_i) (sym d ∙ same_d))))

    pub finish-Quiet :
        (now : ℕ) (w : Suspended) (body : BodyRead) (g : Gateway)
        → Harmless w
        → Quiet g
        → Quiet (finish runtime config now w body g)
    unfolding finish Harmless
    finish-Quiet now awaits_ssh body g h v =
        Holds-state Quiet _
          (finish_register_ssh-Kept identity_id device_id old late runtime now body.as_ssh) g v
    finish-Quiet now awaits_passkey body g h v =
        Holds-state Quiet _
          (finish_register_passkey-Kept identity_id device_id old late runtime config now
            body.as_passkey)
          g v
    finish-Quiet now awaits_revocation body g h v =
        Holds-state Quiet _
          (finish_revoke-Kept identity_id device_id old late runtime ids now body.as_revocation) g v
    finish-Quiet now awaits_challenge body g h v =
        Holds-state Quiet _
          (finish_issue_challenge-Kept identity_id device_id old late config now body.draws
            body.as_challenge)
          g v
    finish-Quiet now awaits_verification body g h v =
        Holds-state Quiet _
          (finish_verify_challenge-Kept identity_id device_id old late runtime config now body.token
            body.as_verification)
          g v
    finish-Quiet now (awaits_post channel authenticated) body g h v =
        Holds-state Quiet _
          (finish_post-Kept identity_id device_id old late ids runtime config now channel
            authenticated body.as_event h)
          g v
