-- ===== src/Broker/Op.antt =====
-- crates/daimon-transport/src/op.rs: the operations that a transport runs, and the summary of one
-- that crates/daimon-broker/src/broker.rs makes for approvals and for the audit log.
use daimon.Common.{ℕ, Option, List, ◌++◌, take}
use daimon.Common.Text.{Text, codes}
use daimon.Common.Integer.{ℤ}

pub data AuthScheme : Type 0 where
  bearer no_auth : AuthScheme
  header : (name value : Text) → AuthScheme

pub data HttpMethod : Type 0 where
  get_method post_method put_method patch_method delete_method : HttpMethod

-- `Int(i64)` has two constructors: `negative n` is `-1 - n`.
pub data SnmpValue : Type 0 where
  nonnegative negative unsigned : ℕ → SnmpValue
  text oid_value : Text → SnmpValue

-- `J` is the type of JSON values.
pub data Op (J : Type 0) : Type 0 where
  shell_command : (command : Text) → (timeout_secs : ℕ) → Op J
  http :
      (method : HttpMethod)
      → (path : Text) → (headers : List (Text × Text)) → (body : Option J) → (auth : AuthScheme)
      → Op J
  snmp_get : (oid : Text) → Op J
  snmp_set : (oid : Text) → (value : SnmpValue) → Op J
  snmp_walk : (oid_root : Text) → Op J

-- What a transport answers. A status code of HTTP is a `u16`.
pub data OpResult (J : Type 0) : Type 0 where
  shell_output : (stdout stderr : Text) → (exit_status : ℤ) → OpResult J
  http_response : (status : ℕ) → (body : J) → (headers : List (Text × Text)) → OpResult J
  snmp_values : List (Text × SnmpValue) → OpResult J
  snmp_set_ack : OpResult J
  structured : (doc : J) → OpResult J

-- `Debug` of the methods.
unfoldable pub show_method : HttpMethod → Text
show_method get_method = codes "Get"
show_method post_method = codes "Post"
show_method put_method = codes "Put"
show_method patch_method = codes "Patch"
show_method delete_method = codes "Delete"

unfoldable pub op_summary_for : {J : Type 0} → Op J → Text
unfolding show_method
op_summary_for (shell_command command timeout_secs) = codes "ssh:exec:" ++ take 80 command
op_summary_for (http method path headers body auth) =
    codes "http:" ++ (show_method method ++ (codes ":" ++ path))
op_summary_for (snmp_get oid) = codes "snmp:get:" ++ oid
op_summary_for (snmp_set oid value) = codes "snmp:set:" ++ oid
op_summary_for (snmp_walk oid_root) = codes "snmp:walk:" ++ oid_root
