-- ===== src/Checks/Ids.antt =====
-- Runs of src/core/node_id_utils.cpp.
use libgossip.Base.{◌≡◌, refl, some, arith}
use libgossip.Checks.Samples.{id_of}
use libgossip.Ids.{node_id_to_string, parse_node_id}
use libgossip.Ids.RoundTrip.{parse_node_id-node_id_to_string}

parse_node_id-node_id_to_string_example :
    parse_node_id (node_id_to_string (id_of 171)) ≡ some (id_of 171)
parse_node_id-node_id_to_string_example =
    parse_node_id-node_id_to_string (id_of 171) refl (ground arith)
