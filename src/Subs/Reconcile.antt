-- ===== src/Subs/Reconcile.antt =====
-- subs/reconcile.py: the merge of a parsed feed into the nodes of its subscription. The merge is one
-- transaction: it is a function from the store before it to the store after it.
pub mod Rows
pub mod Whole
pub mod Kept
pub mod Deletes
use Prim.Native.String.{compare as compare_text}
use Prim.Native.Nat.{Ordering}
use v2pi.Base.{
  ℕ, zero, suc, ◌+◌, ◌*◌, Bool, true, false, not, ◌&&◌, ◌||◌, ltb, leb, ◌==◌, id_eq, String, str_eq,
  Option, none, some, List, [], ◌∷◌, map, keep, any_of, length, if◌then◌else◌,
}
use v2pi.Base.Sort.{sort}
use v2pi.Events.{clip}
use v2pi.Node.{Node}
use v2pi.Subs.Nodes.{
  Table, add_node, update_node, mark_stale, delete_node, same_identity, get_node_by_identity,
  list_nodes_for_sub,
}

-- parsers/__init__.py, `clamp_node_fields`
unfoldable pub clamp_node_fields : Node → Node
clamp_node_fields n = record n {
  name = clip 256 n.name;
  address = clip 253 n.address;
  uuid = clip 128 n.uuid;
  sni = clip 253 n.sni;
  path = clip 512 n.path;
  host = clip 253 n.host;
  alpn = clip 512 n.alpn;
  public_key = clip 512 n.public_key;
  short_id = clip 512 n.short_id;
  fingerprint = clip 512 n.fingerprint;
  flow = clip 512 n.flow;
  mode = clip 512 n.mode;
  note = clip 512 n.note;
  security = clip 512 n.security;
  transport = clip 512 n.transport;
  password = clip 512 n.password;
  method = clip 512 n.method;
}

-- `_config_differs`, over the `_CONFIG_FIELDS`
unfoldable pub config_differs : Node → Node → Bool
config_differs a b =
    not (str_eq a.address b.address)
    || (not (a.port == b.port)
        || (not (str_eq a.uuid b.uuid)
            || (not (str_eq a.transport b.transport)
                || (not (str_eq a.sni b.sni)
                    || (not (str_eq a.public_key b.public_key)
                        || (not (str_eq a.short_id b.short_id)
                            || (not (str_eq a.fingerprint b.fingerprint)
                                || (not (str_eq a.flow b.flow)
                                    || (not (str_eq a.network b.network)
                                        || (not (str_eq a.security b.security)
                                            || (not (str_eq a.path b.path)
                                                || (not (str_eq a.host b.host)
                                                    || (not (str_eq a.mode b.mode)
                                                        || not (str_eq a.alpn b.alpn))))))))))))))

-- `_SECURITY_RANK.get(security, 0)`
unfoldable pub security_rank : String → ℕ
security_rank s = if str_eq s "tls" then 1 else if str_eq s "reality" then 2 else 0

-- `security_kept`, for two nodes that are both there.
unfoldable pub security_kept : Node → Node → Bool
security_kept old new = leb (security_rank old.security) (security_rank new.security)

-- `by_key[_identity(p)] = p`
put_by_identity : Node → List Node → List Node
put_by_identity p [] = p ∷ []
put_by_identity p (q ∷ qs) =
    let rest = put_by_identity p qs in if same_identity q p then p ∷ qs else q ∷ rest

dedupe_onto : List Node → List Node → List Node
dedupe_onto by_key [] = by_key
dedupe_onto by_key (p ∷ parsed) = dedupe_onto (put_by_identity p by_key) parsed

-- `_dedupe`: of two entries with one identity the later is kept, in the place of the first.
unfoldable pub dedupe : List Node → List Node
unfolding put_by_identity dedupe_onto
dedupe = dedupe_onto []

-- The identities of two nodes, in Python's order of tuples.
text_lt : String → String → Bool
text_lt a b = elim (compare_text a b) [ Ordering.lt ↦ true | _ ↦ false ]

identity_lt : Node → Node → Bool
identity_lt a b =
    text_lt a.address b.address
    || (str_eq a.address b.address
        && (ltb a.port b.port
            || (a.port == b.port
                && (text_lt a.uuid b.uuid
                    || (str_eq a.uuid b.uuid
                        && (text_lt a.path b.path
                            || (str_eq a.path b.path
                                && (text_lt a.sni b.sni
                                    || (str_eq a.sni b.sni && text_lt a.short_id b.short_id)))))))))

pub record Identity : Type 0 where
  pub address : String
  pub port : ℕ
  pub uuid : String
  pub path : String
  pub sni : String
  pub short_id : String

-- `_identity`
unfoldable pub identity : Node → Identity
identity n = record {
  address = n.address;
  port = n.port;
  uuid = n.uuid;
  path = n.path;
  sni = n.sni;
  short_id = n.short_id;
}

-- The store of one subscription's refresh: the nodes, and the row `subscription_shrink:<id>`.
pub record Store : Type 0 where
  pub nodes : Table
  pub shrink : Option String

-- What `reconcile` reports.
pub record Counts : Type 0 where
  pub added : ℕ
  pub updated : ℕ
  pub removed : ℕ
  pub skipped_deletes : ℕ
  pub active_changed : Bool
  pub active_replacement : Option (Option ℕ)
  pub active_downgrade : Option (String × String)

-- The variables of the first loop.
pub record Merge : Type 0 where
  pub table : Table
  pub added : ℕ
  pub updated : ℕ
  pub active_changed : Bool
  pub active_downgrade : Option (String × String)

-- The arguments of a merge.
pub record Job : Type 0 where
  pub sub_id : ℕ
  pub active_node_id : Option ℕ
  pub default_profile_id : Option ℕ

-- A new row, and the row that replaces `cur`: profile and note are the operator's.
unfoldable pub fresh_row : Job → ℕ → Node → Node
fresh_row job pos p = record p {
  subscription_id = some job.sub_id;
  stale = false;
  position = pos;
  id = none;
  tuning_profile_id = job.default_profile_id;
}

unfoldable pub next_row : Job → ℕ → Node → Node → Node
next_row job pos p cur = record p {
  subscription_id = some job.sub_id;
  stale = false;
  position = pos;
  id = cur.id;
  tuning_profile_id = cur.tuning_profile_id;
  note = cur.note;
}

-- The feed offers less protection for the node that carries the tunnel.
unfoldable pub weakens_active : Job → Node → Node → Bool
weakens_active job cur p = id_eq cur.id job.active_node_id && not (security_kept cur p)

unfoldable pub merge_known : Job → ℕ → Node → Node → Merge → Merge
merge_known job pos p cur m =
    let row = next_row job pos p cur in
    if weakens_active job cur row
    then record m { active_downgrade = some (cur.security, row.security) }
    else record m {
      active_changed =
          m.active_changed || (id_eq cur.id job.active_node_id && config_differs cur row);
      table = update_node row m.table;
      updated = m.updated + 1;
    }

-- One turn of the first loop.
unfoldable pub merge_one : Job → ℕ → Node → Merge → Merge
unfolding merge_known
merge_one job pos p m = elim (get_node_by_identity job.sub_id p m.table.rows) [
  | none ↦ record m { table = add_node (fresh_row job pos p) m.table; added = m.added + 1 }
  | some cur ↦ merge_known job pos p cur m
]

-- The first loop, over `enumerate(parsed)`.
unfoldable pub merge_all : Job → ℕ → List Node → Merge → Merge
unfolding merge_one
merge_all job pos [] m = m
merge_all job pos (p ∷ parsed) m = merge_all job (pos + 1) parsed (merge_one job pos p m)

-- The variables of the second loop.
pub record Sweep : Type 0 where
  pub table : Table
  pub removed : ℕ
  pub skipped : ℕ
  pub active_vanished : Bool

-- What the size of the feed says of its gaps.
pub record Gaps : Type 0 where
  pub anomalous : Bool
  pub confirmed : Bool

-- One turn of the second loop.
unfoldable pub sweep_one : Job → Gaps → List Node → Node → Sweep → Sweep
sweep_one job gaps parsed n w =
    if any_of (same_identity n) parsed
    then w
    else if length parsed == 0
    then record w { skipped = w.skipped + 1 }
    else if gaps.anomalous && (not gaps.confirmed || not n.stale)
    then record w { table = mark_stale n.id true w.table; skipped = w.skipped + 1 }
    else if id_eq n.id job.active_node_id
    then record w { table = mark_stale n.id true w.table; active_vanished = true }
    else record w { table = delete_node n.id w.table; removed = w.removed + 1 }

unfoldable pub sweep_all : Job → Gaps → List Node → List Node → Sweep → Sweep
unfolding sweep_one
sweep_all job gaps parsed [] w = w
sweep_all job gaps parsed (n ∷ existing) w =
    sweep_all job gaps parsed existing (sweep_one job gaps parsed n w)

-- `len(parsed) < len(existing) * 0.5`, where neither is empty.
unfoldable pub anomalous_shrink : List Node → List Node → Bool
anomalous_shrink parsed existing =
    not (length parsed == 0)
    && (not (length existing == 0) && ltb (2 * length parsed) (length existing))

abbrev row_is : Option String → String → Bool
row_is none s = false
row_is (some t) s = str_eq t s

-- The single fresh node of the subscription, if there is just one.
replacement : List Node → Option (Option ℕ)
replacement (n ∷ []) = some n.id
replacement _ = none

-- `hash` stands for the SHA-256 of the printed list.
module _ (hash : List Identity → String) where
  -- `_shrink_fingerprint`
  unfoldable pub shrink_fingerprint : List Node → String
  unfolding identity_lt text_lt
  shrink_fingerprint parsed = hash (map identity (sort identity_lt parsed))

  unfoldable pub gaps_of : List Node → List Node → Option String → Gaps
  gaps_of parsed existing shrink =
      let anomalous = anomalous_shrink parsed existing in
      record {
        anomalous = anomalous;
        confirmed = anomalous && row_is shrink (shrink_fingerprint parsed);
      }

  -- The transaction, for a feed that is clamped and has no identity twice.
  unfoldable pub reconcile_clean : Job → List Node → Store → Counts × Store
  unfolding merge_all sweep_all replacement
  reconcile_clean job parsed st =
      let existing = list_nodes_for_sub job.sub_id st.nodes in
      let gaps = gaps_of parsed existing st.shrink in
      let start : Merge = record {
        table = st.nodes;
        added = 0;
        updated = 0;
        active_changed = false;
        active_downgrade = none;
      } in
      let merged = merge_all job 0 parsed start in
      let begin : Sweep = record {
        table = merged.table;
        removed = 0;
        skipped = 0;
        active_vanished = false;
      } in
      let swept = sweep_all job gaps parsed existing begin in
      (
        record {
          added = merged.added;
          updated = merged.updated;
          removed = swept.removed;
          skipped_deletes = swept.skipped;
          active_changed = merged.active_changed;
          active_replacement =
              if swept.active_vanished
              then replacement (keep (λ n. not n.stale) (list_nodes_for_sub job.sub_id swept.table))
              else none;
          active_downgrade = merged.active_downgrade;
        },
        record {
          nodes = swept.table;
          shrink = some (if gaps.anomalous then shrink_fingerprint parsed else "");
        },
      )

  unfoldable pub reconcile : Job → List Node → Store → Counts × Store
  reconcile job parsed = reconcile_clean job (dedupe (map clamp_node_fields parsed))
