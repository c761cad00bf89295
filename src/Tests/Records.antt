-- ===== src/Tests/Records.antt =====
-- src/reqlog/protocol.rs and src/service/auth.rs at concrete inputs.
use fareward.Common.{◌+◌, ◌*◌, ◌^◌, ◌↔◌, ◌≡◌, refl, true, [], ◌∷◌, ◌++◌}
use fareward.Common.Int.{pos, negsuc}
use fareward.Common.Bytes.{be_bytes}
use fareward.Reqlog.Record.{RequestLogRecord, frame_route_company_agg}
use fareward.Service.Auth.{domain, verify_hash}
use fareward.Service.Auth.Tags.{verify_hash_message}
use fareward.Siphash.{derive_key, new, write, finish}

abbrev early : RequestLogRecord
early = record {
  date = pos 20_500;
  request_id = pos 1_767;
  route_id = pos 102;
  frame = 41;
  company_id = pos 7;
  user_id = pos 42;
  elapsed_ms = pos 318;
  errors = [];
}

abbrev late : RequestLogRecord
late = record early { frame = 42; route_id = negsuc 0 }

early_key : frame_route_company_agg early ≡ 41 * 2 ^ 40 + 102 * 2 ^ 24 + 7
unfolding frame_route_company_agg
early_key = refl

verify_hash_message_example :
    (verify_hash (λ bytes. bytes) (1 ∷ 2 ∷ []) (3 ∷ []) 4 (7 ∷ 8 ∷ []) (5 ∷ 6 ∷ []) ≡ true) ↔ (
      be_bytes 8 (
        finish (
          write
            (domain ++ (3 ∷ []) ++ be_bytes 8 4 ++ (7 ∷ 8 ∷ []))
            (new (derive_key (λ bytes. bytes) (1 ∷ 2 ∷ [])))))
      ≡ 5 ∷ 6 ∷ [])
verify_hash_message_example =
    verify_hash_message (λ bytes. bytes) (1 ∷ 2 ∷ []) (3 ∷ []) 4 (7 ∷ 8 ∷ []) (5 ∷ 6 ∷ [])
