-- ===== src/Reqlog/Record/Packed.antt =====
-- src/reqlog/protocol.rs: the packed key keeps its three parts apart and sorts by the frame first.
use fareward.Common.{◌/◌, ◌%◌, ◌^◌, ◌<◌, ◌≤◌, ◌⊎◌, ◌≡◌, arith}
use fareward.Common.Int.{ℤ}
use fareward.Reqlog.Record.{RequestLogRecord, low_bits, frame_route_company_agg}

low_bits-lt_16 : (a : ℤ) → low_bits 16 a < 2 ^ 16
unfolding low_bits
low_bits-lt_16 a = ground arith

low_bits-lt_24 : (a : ℤ) → low_bits 24 a < 2 ^ 24
unfolding low_bits
low_bits-lt_24 a = ground arith

-- The key of a record is smaller than that of one in a later frame, and the frame, the bits of the
-- route and the low 24 bits of the company are read back from a key.
pub frame_route_company_agg_parts :
    (r s : RequestLogRecord)
    → ((frame_route_company_agg r < frame_route_company_agg s) ⊎ (s.frame ≤ r.frame))
      × (frame_route_company_agg r / 2 ^ 40 ≡ r.frame)
      × (frame_route_company_agg r / 2 ^ 24 % 2 ^ 16 ≡ low_bits 16 r.route_id)
      × (frame_route_company_agg r % 2 ^ 24 ≡ low_bits 24 r.company_id)
unfolding frame_route_company_agg
frame_route_company_agg_parts r s =
    let route = low_bits-lt_16 r.route_id in
    let company = low_bits-lt_24 r.company_id in
    (
      ground (arith, route, company),
      omega (arith, route, company),
      omega (arith, route, company),
      omega (arith, company),
    )
