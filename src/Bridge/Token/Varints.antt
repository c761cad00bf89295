-- ===== src/Bridge/Token/Varints.antt =====
-- src/bridge/token.rs: a number that is written is read back.
use fareward.Common.{ℕ, ◌^◌, ◌<◌, ◌≡◌, some, List, ◌++◌, arith}
use fareward.Bridge.Token.{read_uvarint, append_groups}

pub read_uvarint-append_groups :
    (value : ℕ) (rest : List ℕ)
    → value < 2 ^ 31
    → read_uvarint 0 0 (append_groups 10 value ++ rest) ≡ some (value, rest)
unfolding read_uvarint append_groups
read_uvarint-append_groups value rest h = ground (arith, h)
