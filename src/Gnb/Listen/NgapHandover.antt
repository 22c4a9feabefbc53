-- ===== src/Gnb/Listen/NgapHandover.antt =====
-- The second half of a handover that the AMF prepared: the command at the source gNB, and the UE's
-- arrival at the target, which has its context.
use packet_rusher.Base.{
  ℕ, ◌≡◌, ◌≢◌, refl, sym, false, some, List, [], ◌∷◌, ok, get_elem?-set_self, get_elem?-set_ne,
  within,
}
use packet_rusher.Gnb.Amf.{GnbAmf}
use packet_rusher.Gnb.Ue.{GnbUe, ready}
use packet_rusher.Gnb.Context.{GnbContext, get_gnb_ue_by_pr_ue_id, contains}
use packet_rusher.Gnb.Context.Pools.{ue_at}
use packet_rusher.Gnb.Messages.{
  UeMessage, zero_message, to_ue, to_gnb, process_connection, put_ue, to_amf,
}
use packet_rusher.Gnb.Ngap.{NgapLib, AmfMessage}
use packet_rusher.Gnb.Ngap.Triggers.{
  bytes_of, Writes, send_or_fatal-Writes, send_handover_notify, send_inbound, new_connection,
}
use packet_rusher.Gnb.Ngap.Handover.{command_for, ngap_request}
use packet_rusher.Gnb.Ngap.Ues.Open.{send_open}
use packet_rusher.Gnb.Listen.{accept_handover, gnb_listen}

-- The prepared UE with its new channels.
abbrev pub reached : GnbUe → ℕ → ℕ → GnbUe
reached there rx tx = record there { gnb_rx = some rx; gnb_tx = some tx; state = ready }

-- The Handover Notify of the target, which has the UE at `q`.
abbrev pub notify_bytes : NgapLib → GnbContext → ℕ → GnbUe → ℕ → ℕ → List ℕ
notify_bytes lib target q there rx tx = bytes_of (
    lib.encode
      (AmfMessage.handover_notify (put_ue target q (reached there rx tx)) (reached there rx tx)))

-- The sessions that the target tells the UE.
abbrev pub sessions_of : GnbContext → GnbUe → UeMessage
sessions_of target there = record zero_message {
  gnb_pdu_sessions = there.context.pdu_session;
  gnb_ip = target.data_ip_port.addr;
}

-- The target after the arrival: the prepared UE is ready and has the new channels, and all else stays.
pub record Taken (target target' : GnbContext) (q : ℕ) (there : GnbUe) (rx tx : ℕ) : Type 0 where
  pub now : GnbUe
  pub object : ue_at target' q ≡ some now
  pub others : (r : ℕ) → r ≢ q → ue_at target' r ≡ ue_at target r
  pub same_ran_pool : target'.ue_pool ≡ target.ue_pool
  pub same_pr_pool : target'.pr_ue_pool ≡ target.pr_ue_pool
  pub same_context : now.context ≡ there.context
  pub same_ran_id : now.ran_ue_ngap_id ≡ there.ran_ue_ngap_id
  pub same_amf_ue_id : now.amf_ue_ngap_id ≡ there.amf_ue_ngap_id
  pub same_connection : now.sctp_connection ≡ there.sctp_connection
  pub from_ue : now.gnb_rx ≡ some rx
  pub to_the_ue : now.gnb_tx ≡ some tx
  pub is_ready : now.state ≡ ready

commanded :
    (lib : NgapLib) (source : GnbContext) (p rx tx t inbound c : ℕ) (ue : GnbUe)
    → ue_at source p ≡ some ue
    → ue.new_gnb ≡ some t
    → lib.inbound_channel_of t ≡ some inbound
    → contains (lib.closed_of t) inbound ≡ false
    → ue.gnb_tx ≡ some c
    → contains source.closed c ≡ false
    → command_for lib rx tx source p
      ≡ ok (
        source,
        to_gnb inbound (ngap_request ue rx tx) ∷ to_ue c (new_connection rx tx (some inbound)) ∷ [],
      )
unfolding command_for send_inbound
commanded lib source p rx tx t inbound c ue at is_target channel open_in tx_is open_tx =
    rw
      (
        at,
        is_target,
        channel,
        open_in,
        send_open c source ue (new_connection rx tx (some inbound)) tx_is open_tx,
      )
      refl

taken :
    (target : GnbContext) (q rx tx : ℕ) (there : GnbUe)
    → ue_at target q ≡ some there
    → Taken target (put_ue target q (reached there rx tx)) q there rx tx
taken target q rx tx there at = record {
  now = reached there rx tx;
  object = get_elem?-set_self target.ues q (reached there rx tx) (within target.ues q there at);
  others = λ r other. get_elem?-set_ne target.ues (reached there rx tx) (λ same. other (sym same));
  same_ran_pool = refl;
  same_pr_pool = refl;
  same_context = refl;
  same_ran_id = refl;
  same_amf_ue_id = refl;
  same_connection = refl;
  from_ue = refl;
  to_the_ue = refl;
  is_ready = refl;
}

accepted :
    (lib : NgapLib) (target : GnbContext) (q rx tx : ℕ) (ue there : GnbUe)
    → contains target.closed tx ≡ false
    → Writes lib there.sctp_connection (notify_bytes lib target q there rx tx)
    → accept_handover lib target q there (ngap_request ue rx tx)
      ≡ ok (
        put_ue target q (reached there rx tx),
        to_ue tx (sessions_of target there)
            ∷ to_amf there.sctp_connection (notify_bytes lib target q there rx tx)
            ∷ process_connection q
            ∷ [],
      )
unfolding accept_handover ngap_request send_handover_notify
accepted lib target q rx tx ue there open_tx writes =
    rw
      (
        send_open tx target (record there { gnb_rx = some rx; gnb_tx = some tx })
            (sessions_of target there) refl open_tx,
        send_or_fatal-Writes lib there.sctp_connection (notify_bytes lib target q there rx tx)
            writes,
      )
      refl

-- A Handover Command for a UE that has a target, over channels that are open, where the target prepared
-- the UE under its PacketRusher id and can write to the UE's AMF: the source sends the target the
-- request and the UE the new channels; and when the target has handled the request, the UE that it
-- prepared is ready with the new channels and has the prepared context, ids and connection, no other UE
-- and no entry of the pools has changed, the UE has been told the prepared sessions, and the AMF has
-- been notified.
pub ngap_handover-Taken :
    (lib : NgapLib) (order : List GnbAmf) (source target : GnbContext) (p q rx tx t inbound c : ℕ)
    (ue there : GnbUe)
    → ue_at source p ≡ some ue
    → ue.new_gnb ≡ some t
    → lib.inbound_channel_of t ≡ some inbound
    → contains (lib.closed_of t) inbound ≡ false
    → ue.gnb_tx ≡ some c
    → contains source.closed c ≡ false
    → get_gnb_ue_by_pr_ue_id target ue.pr_ue_id ≡ some q
    → ue_at target q ≡ some there
    → contains target.closed tx ≡ false
    → Writes lib there.sctp_connection (notify_bytes lib target q there rx tx)
    → (command_for lib rx tx source p
        ≡ ok (
          source,
          to_gnb inbound (ngap_request ue rx tx)
              ∷ to_ue c (new_connection rx tx (some inbound))
              ∷ [],
        ))
      × ((target' : GnbContext) × (gnb_listen lib order target (ngap_request ue rx tx)
            ≡ ok (
              target',
              to_ue tx (sessions_of target there)
                  ∷ to_amf there.sctp_connection (notify_bytes lib target q there rx tx)
                  ∷ process_connection q
                  ∷ [],
            ))
          × Taken target target' q there rx tx)
unfolding gnb_listen ngap_request
ngap_handover-Taken lib order source target p q rx tx t inbound c ue there at is_target channel
      open_in tx_is open_tx known found open_new writes =
    let prepared : target.pr_ue_pool ue.pr_ue_id ≡ some q = known in
    (
      commanded lib source p rx tx t inbound c ue at is_target channel open_in tx_is open_tx,
      (
        put_ue target q (reached there rx tx),
        rw (prepared, gnb_listen) (rw found (accepted lib target q rx tx ue there open_new writes)),
        taken target q rx tx there found,
      ),
    )
