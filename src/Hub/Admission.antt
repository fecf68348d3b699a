-- ===== src/Hub/Admission.antt =====
-- Who may connect: the checks of a node's first frame and of a client's token.
use stackhour.Prelude.{
  String, ◌≡◌, refl, ap, sym, ◌∙◌, ◌↔◌, ◌⊎◌, inl, inr, true, false, Option, none, some, str_eq,
  eq_iff, arith, Bool-cases,
}
use stackhour.Domain.Protocol.{NodeHello, reject_welcome, wire_protocol_version}
use stackhour.Domain.Handshake.{negotiate-accepted}
use stackhour.Hub.State.{HubState, negotiate_node, accepts_client}

-- The hub accepts a node if and only if it presents the hub's secret and speaks the hub's version.
pub negotiate_node-accepted :
    (hello : NodeHello) (s : HubState)
    → ((negotiate_node hello s).accepted ≡ true)
      ↔ ((hello.token ≡ s.node_secret) × (hello.protocol_version ≡ wire_protocol_version))
unfolding negotiate_node reject_welcome
negotiate_node-accepted hello s =
    let version = (negotiate-accepted hello.protocol_version).0 in
    elim (Bool-cases (str_eq hello.token s.node_secret)) [
      | inl good ↦
          rw (negotiate_node, good)
            ((λ h. ((eq_iff hello.token s.node_secret).0 good, version.0 h)), (λ h. version.1 h.1))
      | inr bad ↦
          rw (negotiate_node, bad)
            (
              (λ h. absurd (ground arith)),
              (λ h. absurd (ground (arith, (eq_iff hello.token s.node_secret).1 h.0))),
            )
    ]

-- The hub accepts a client if and only if the hub has no client secret, or the client presents it.
pub accepts_client_lem :
    (token : Option String) (s : HubState)
    → (accepts_client token s ≡ true) ↔ ((s.client_secret ≡ "") ⊎ (token ≡ some s.client_secret))
unfolding accepts_client
accepts_client_lem token s = elim (Bool-cases (str_eq s.client_secret "")) [
  | inl free ↦
      rw (accepts_client, free) ((λ h. inl ((eq_iff s.client_secret "").0 free)), (λ h. refl))
  | inr secret ↦ guarded token secret
]
  where
    closed : str_eq s.client_secret "" ≡ false → s.client_secret ≡ "" → false ≡ true
    closed secret e = sym secret ∙ (eq_iff s.client_secret "").1 e

    guarded :
        (t : Option String)
        → str_eq s.client_secret "" ≡ false
        → (accepts_client t s ≡ true) ↔ ((s.client_secret ≡ "") ⊎ (t ≡ some s.client_secret))
    guarded none secret =
        rw (accepts_client, secret)
          ((λ h. absurd (cc h)), (λ h. elim h [ inl e ↦ closed secret e | inr e ↦ absurd (cc e) ]))
    guarded (some t) secret =
        rw (accepts_client, secret)
          (
            (λ h. inr (ap some ((eq_iff t s.client_secret).0 h))),
            (λ h. elim h [
              | inl e ↦ absurd (ground (arith, closed secret e))
              | inr e ↦ (eq_iff t s.client_secret).1 (ground arith)
            ]),
          )
