-- ===== src/Keys/Examples.antt =====
-- The key encoder at concrete keys.
use database_management_syst.Prelude.{◌≡◌, arith}
use database_management_syst.Prelude.Int.{negsuc}
use database_management_syst.Status.{ok}
use database_management_syst.Value.{int, value_type}
use database_management_syst.Keys.{encode, decode}
use database_management_syst.Keys.RoundTrip.{decode-encode}

decode-encode_example :
    decode (encode (int (negsuc 4))) (value_type (int (negsuc 4))) ≡ ok (int (negsuc 4))
decode-encode_example = decode-encode (int (negsuc 4)) (omega arith)
