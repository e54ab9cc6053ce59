-- ===== src/Tools/Probe/Laws.antt =====
-- The stages of the probe, and the endpoints that it reads.
use devops_agent_msk_mcp.Base.{
  ℕ, ◌<◌, ◌^◌, ℤ, pos, int, show_ℕ, show_ℤ, Text, codes, Unicode, contains, true, false, [], ◌∷◌,
  ◌++◌, Option, none, some, ◌≡◌, ◌≢◌, ◌⊎◌, refl, All, arith, ap, sym, ◌∙◌,
}
use mathlib.Core.Path.{subst}
use devops_agent_msk_mcp.Base.Int.Laws.{int-show_ℤ, IsDigit, show_ℕ-IsDigit}
use devops_agent_msk_mcp.Base.Strings.Laws.{rsplit-append}
use devops_agent_msk_mcp.Config.{Host, IamCluster, iam_cluster, ClustersRegistry, get, non_empty}
use devops_agent_msk_mcp.Errors.{Result, ok, err, Raised, ok_injective, ◌>>=◌}
use devops_agent_msk_mcp.KafkaClients.{iam_config}
use devops_agent_msk_mcp.Tools.Probe.{
  Url, Connection, connected, connect_timeout, gaierror, os_error, connect_raised, parse_endpoint,
  ProbeReport, ProbeCalls, classify_protocol_failure, failed_report, tcp_outcome, probe_tcp,
  probe_conf, attempted, after_tcp, probe_kafka_protocol, probe_broker_connectivity,
}

no_colon : (s : Text) → All IsDigit s → All (λ d. d ≢ b':') s
no_colon [] h = tt
no_colon (d ∷ s) (digit, h) = (omega arith, no_colon s h)

module _ (u : Unicode) (repr : Text → Text) (urlsplit : Text → Result Url) where
  -- An endpoint `host:port` that holds no `://` is read as that host and that port, whatever colons the
  -- host has, for a port of at most 4300 digits.
  pub parse_endpoint-pair :
      (host : Text) (port : ℕ)
      → contains (host ++ (b':' ∷ show_ℕ port)) (codes "://") ≡ false
      → port < 10 ^ 4300
      → parse_endpoint u repr urlsplit (host ++ (b':' ∷ show_ℕ port)) ≡ ok (host, pos port)
  unfolding parse_endpoint show_ℤ
  parse_endpoint-pair host port plain small =
      let split =
        rsplit-append b':' host (show_ℕ port) (no_colon (show_ℕ port) (show_ℕ-IsDigit port)) in
      let number : int u (show_ℕ port) ≡ some (pos port) =
        int-show_ℤ u (pos port) small (omega arith) in
      rw (plain, parse_endpoint) (rw (split, number) refl)

-- A stage behind the TCP stage.
abbrev pub IsLater : Text → Type 0
IsLater stage = (stage ≡ codes "TLS") ⊎ ((stage ≡ codes "SASL") ⊎ (stage ≡ codes "PROTOCOL"))

classify-IsLater : (u : Unicode) (e : Raised) → IsLater (classify_protocol_failure u e).0
unfolding classify_protocol_failure
classify-IsLater u e = ground arith

module _ (u : Unicode) {h : Host} (calls : ProbeCalls h) where
  -- What a report says, against how the connection ended and what the client did with the configuration.
  pub data Staged (connection : Connection) (handshake : Result (Unit {0})) (r : ProbeReport)
      : Type 0 where
    no_connection :
        connection ≢ connected
        → r.failure_stage ≡ some (codes "NETWORK")
        → r.connection_successful ≡ false
        → Staged connection handshake r
    no_handshake :
        connection ≡ connected
        → (e : Raised) → handshake ≡ err e
        → (stage : Text) → r.failure_stage ≡ some stage
        → IsLater stage
        → r.connection_successful ≡ false
        → Staged connection handshake r
    reached :
        connection ≡ connected
        → handshake ≡ ok tt
        → r.failure_stage ≡ none
        → r.connection_successful ≡ true
        → Staged connection handshake r

  Staged-attempted :
      (connection : Connection) (handshake : Result (Unit {0})) (cluster_id endpoint : Text)
      → connection ≡ connected
      → Staged connection handshake (attempted u calls cluster_id endpoint handshake)
  unfolding failed_report
  Staged-attempted connection (ok tt) cluster_id endpoint e = reached e refl refl refl
  Staged-attempted connection (err x) cluster_id endpoint e =
      no_handshake e x refl _ refl (classify-IsLater u x) refl

  -- The configuration that the probe of a cluster with IAM hands to the client.
  abbrev pub handshake_of : Text → h.Float → IamCluster → Result (Unit {0})
  handshake_of endpoint timeout c =
      iam_config c >>= λ more. calls.list_topics (probe_conf u calls endpoint timeout more) timeout

  module _ (cluster_id endpoint : Text) (timeout : h.Float) (c : IamCluster) where
    after_connection : Result (Option Text) → Result ProbeReport
    after_connection outcome =
        outcome >>= λ e. after_tcp u calls cluster_id (iam_cluster c) endpoint timeout (non_empty e)

    network :
        (connection : Connection) (detail : Text) (r : ProbeReport)
        → connection ≢ connected
        → failed_report cluster_id endpoint (codes "NETWORK") detail ≡ r
        → Staged connection (handshake_of endpoint timeout c) r
    unfolding failed_report
    network connection detail r n e =
        no_connection n (ap (λ (t : ProbeReport). t.failure_stage) (sym e))
          (ap (λ (t : ProbeReport). t.connection_successful) (sym e))

    staged :
        (limit : h.Float) (connection : Connection) (r : ProbeReport)
        → after_connection (tcp_outcome u calls limit connection) ≡ ok r
        → Staged connection (handshake_of endpoint timeout c) r
    unfolding after_connection codes probe_kafka_protocol
    staged limit connected r e =
        subst (Staged connected (handshake_of endpoint timeout c)) (ok_injective e)
          (Staged-attempted connected (handshake_of endpoint timeout c) cluster_id endpoint refl)
    staged limit connect_timeout r e = network connect_timeout _ r (λ x. cc) (ok_injective e)
    staged limit (gaierror x) r e = network (gaierror x) _ r (λ x. cc) (ok_injective e)
    staged limit (os_error x) r e = network (os_error x) _ r (λ x. cc) (ok_injective e)
    staged limit (connect_raised x) r e = cc

  module _ (repr : Text → Text) (urlsplit : Text → Result Url) where
    -- For a cluster with IAM and an endpoint that can be read, a report names the stage that failed: the
    -- network exactly if there was no connection, TLS, SASL or the protocol exactly if there was one and the
    -- client raised, and none, with success, exactly if the client answered.
    pub probe-Staged :
        (registry : ClustersRegistry) (cluster_id endpoint host : Text) (port : ℤ)
        (timeout : h.Float) (c : IamCluster) (r : ProbeReport)
        → get registry cluster_id ≡ ok (iam_cluster c)
        → parse_endpoint u repr urlsplit endpoint ≡ ok (host, port)
        → probe_broker_connectivity u calls repr urlsplit registry cluster_id endpoint timeout
          ≡ ok r
        → Staged
            (calls.open_connection host port (calls.at_most_five timeout))
            (handshake_of endpoint timeout c)
            r
    unfolding after_connection probe_broker_connectivity probe_tcp
    probe-Staged registry cluster_id endpoint host port timeout c r known read h =
        let run : probe_broker_connectivity u calls repr urlsplit registry cluster_id endpoint
              timeout
            ≡ after_connection cluster_id endpoint timeout c
                (probe_tcp u calls host port (calls.at_most_five timeout)) =
          rw (known, probe_broker_connectivity) (rw (read) refl) in
        staged cluster_id endpoint timeout c (calls.at_most_five timeout)
          (calls.open_connection host port (calls.at_most_five timeout)) r (sym run ∙ h)
