-- ===== src/Commands/Network/Topic.antt =====
-- The telemetry topic of the command lines of src/commands.rs.
use mathlib.Core.Option.{some-injective}
use mesh_supervisor.Prelude.{
  string_eq, >>=-eq-ok, ok-injective, ok, String, ◌≡◌, sym, ap, ◌∙◌, Option, some,
}
use mesh_supervisor.Cli.Values.{
  string, endpoint_id, relay_url, Matches, get_one, get_many, get_flag, expect_one,
}
use mesh_supervisor.Commands.Reads.{
  read_supervise, read_watch, main, supervisor_config, client_config,
}
use mesh_supervisor.Commands.Actions.{Action}
use mesh_supervisor.Commands.Network.{Gossip, Node, node_of, supervise_node, watch_node}
use mesh_supervisor.Proto.Frame.{Bytes}
use mesh_supervisor.Telemetry.{topic_for}

-- The node joins the topic of the secret that its command line gives.
abbrev IsTopicOf : Gossip → Matches → Node → Type 0
IsTopicOf g m node =
    (secret : Option String) × (get_one m string "topic-secret" ≡ ok secret)
    × (node.topic ≡ topic_for g.hash secret)

module _ (g : Gossip) (key : Bytes) (m : Matches) (a : Action) (node : Node) where
  supervise-topic : read_supervise m ≡ ok a → node_of g key a ≡ some node → IsTopicOf g m node
  unfolding read_supervise node_of supervise_node
  supervise-topic read is =
      let (cfg, e, r) = >>=-eq-ok (supervisor_config m) _ read in
      let (peers, e1, r1) = >>=-eq-ok (get_many m endpoint_id "peer") _ r in
      let (path, e2, r2) = >>=-eq-ok (expect_one m string "store") _ r1 in
      let (relay, e3, r3) = >>=-eq-ok (get_one m relay_url "relay") _ r2 in
      let (is_open, e4, r4) = >>=-eq-ok (get_flag m "open") _ r3 in
      let (control, e5, r5) = >>=-eq-ok (get_many m endpoint_id "allow") _ r4 in
      let (readers, e6, r6) = >>=-eq-ok (get_many m endpoint_id "allow-read") _ r5 in
      let (secret, given, r7) = >>=-eq-ok (get_one m string "topic-secret") _ r6 in
      let same = some-injective _ _ (sym is ∙ ap (node_of g key) (sym (ok-injective r7))) in
      (secret, given, ap (λ (n : Node). n.topic) same)

  watch-topic : read_watch m ≡ ok a → node_of g key a ≡ some node → IsTopicOf g m node
  unfolding read_watch node_of watch_node
  watch-topic read is =
      let (cfg, e, r) = >>=-eq-ok (client_config m) _ read in
      let (peers, e1, r1) = >>=-eq-ok (get_many m endpoint_id "bootstrap") _ r in
      let (relay, e2, r2) = >>=-eq-ok (get_one m relay_url "relay") _ r1 in
      let (secret, given, r3) = >>=-eq-ok (get_one m string "topic-secret") _ r2 in
      let same = some-injective _ _ (sym is ∙ ap (node_of g key) (sym (ok-injective r3))) in
      (secret, given, ap (λ (n : Node). n.topic) same)

-- A `watch` and a `supervise` whose command lines give the same `--topic-secret`, or both none, join
-- the same topic, whatever else they give.
pub watch_meets :
    (g : Gossip) (key key' : Bytes) (m m' : Matches) (a a' : Action) (node node' : Node)
    → get_one m string "topic-secret" ≡ get_one m' string "topic-secret"
    → main "supervise" m ≡ ok a
    → node_of g key a ≡ some node
    → main "watch" m' ≡ ok a'
    → node_of g key' a' ≡ some node'
    → node.topic ≡ node'.topic
unfolding main
watch_meets g key key' m m' a a' node node' e run is run' is' =
    let (secret, given, topic) = supervise-topic g key m a node run is in
    let (secret', given', topic') = watch-topic g key' m' a' node' run' is' in
    topic ∙ ap (topic_for g.hash) (ok-injective (sym given ∙ e ∙ given')) ∙ sym topic'
