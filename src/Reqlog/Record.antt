-- ===== src/Reqlog/Record.antt =====
-- src/reqlog/protocol.rs: the record of a finished request. Texts are their bytes.
pub mod Packed
use fareward.Common.{
  ℕ, ◌+◌, ◌-◌, ◌*◌, ◌%◌, ◌^◌, Option, List, [], ◌∷◌, map, leb, ltb, if◌then◌else◌, length,
}
use fareward.Common.Int.{ℤ, pos, negsuc}
use fareward.Common.Result.{Result, ok, err, ◌>>=◌, ◌>>◌, refuse_if, ok_or}

abbrev pub max_errors_per_request : ℕ
max_errors_per_request = 4

abbrev pub max_code_line_bytes : ℕ
max_code_line_bytes = 64

abbrev pub max_error_text_bytes : ℕ
max_error_text_bytes = 200

abbrev pub request_log_max_payload_size : ℕ
request_log_max_payload_size = 64 + max_errors_per_request * 300

abbrev pub frames_per_day : ℕ
frames_per_day = 96

pub record ErrorEntry : Type 0 where
  pub id : ℤ
  pub code_line : List ℕ
  pub text : List ℕ

pub record RequestLogRecord : Type 0 where
  pub date : ℤ
  pub request_id : ℤ
  pub route_id : ℤ
  pub frame : ℕ
  pub company_id : ℤ
  pub user_id : ℤ
  pub elapsed_ms : ℤ
  pub errors : List ErrorEntry

-- The low bits of a signed number, in two's complement.
unfoldable pub low_bits : ℕ → ℤ → ℕ
low_bits w (pos n) = n % 2 ^ w
low_bits w (negsuc n) = 2 ^ w - 1 - n % 2 ^ w

-- The parts take bits of their own, so that `|` is a sum.
unfoldable pub frame_route_company_agg : RequestLogRecord → ℕ
unfolding low_bits
frame_route_company_agg r =
    r.frame * 2 ^ 40 + low_bits 16 r.route_id * 2 ^ 24 + low_bits 24 r.company_id

-- A list is shorter than the 128 at which the cast to `i8` would wrap.
abbrev pub error_count : RequestLogRecord → ℕ
error_count r = length r.errors

abbrev pub error_ids : RequestLogRecord → List ℤ
error_ids r = map (λ entry. entry.id) r.errors

pub data RequestLogError : Type 0 where
  malformed : RequestLogError
  invalid_frame too_many_errors : ℕ → RequestLogError
  code_line_too_long text_too_long : ℕ → ℕ → RequestLogError

-- The loop over the errors, from a block on.
unfoldable pub check_entries : ℕ → List ErrorEntry → Result RequestLogError (Unit {0})
check_entries block [] = ok tt
check_entries block (entry ∷ entries) = do
  refuse_if (ltb max_code_line_bytes (length entry.code_line))
      (code_line_too_long block (length entry.code_line))
  refuse_if (ltb max_error_text_bytes (length entry.text)) (text_too_long block (length entry.text))
  check_entries (block + 1) entries

-- `decode` is the codec of the colbin crate.
unfoldable pub parse_request_log :
    (List ℕ → Option RequestLogRecord) → List ℕ → Result RequestLogError RequestLogRecord
unfolding check_entries
parse_request_log decode payload = do
  record_read ← ok_or (decode payload) malformed
  refuse_if (leb frames_per_day record_read.frame) (invalid_frame record_read.frame)
  refuse_if (ltb max_errors_per_request (length record_read.errors))
      (too_many_errors (length record_read.errors))
  check_entries 0 record_read.errors
  ok record_read
