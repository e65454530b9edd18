-- ===== src/Nal.antt =====
-- platform/common/nal_split.h: the NAL units of an encoder's Annex B stream, and the RTP clock of
-- video.
pub mod Split
pub mod Clock
use libmezia.Prelude.{
  ℕ, zero, suc, ◌+◌, ◌-◌, ◌*◌, ◌/◌, List, [], ◌∷◌, ◌++◌, Bool, true, false, ◌&&◌, ◌||◌, not, ltb,
  leb, ◌==◌, if◌then◌else◌, nonzero, drop, take, u32, u64,
}
use libmezia.Wire.{byte_at}

-- A call of the visitor.
pub record Visit : Type 0 where
  pub nal : List ℕ
  pub end_of_access_unit : Bool

-- `mezia_start_code_len`
unfoldable pub start_code_len : List ℕ → ℕ → ℕ → ℕ
start_code_len d len offset =
    if leb (offset + 3) len
      && byte_at d offset == 0
      && byte_at d (offset + 1) == 0
      && byte_at d (offset + 2) == 1
    then 3
    else if leb (offset + 4) len
        && byte_at d offset == 0
        && byte_at d (offset + 1) == 0
        && byte_at d (offset + 2) == 0
        && byte_at d (offset + 3) == 1
    then 4
    else 0

-- The `n` bytes from `start` on, as a visit.
abbrev pub visit_of : List ℕ → ℕ → ℕ → Bool → Visit
visit_of d start n last = record { nal = take n (drop start d); end_of_access_unit = last }

-- The visits after the loop.
abbrev pub last_visit : List ℕ → ℕ → ℕ → Bool → List Visit
last_visit d len start have =
    if have && ltb start len
    then visit_of d start (len - start) true ∷ []
    else if not have && nonzero len
    then visit_of d 0 len true ∷ []
    else []

-- The loop, on fuel: each round moves `i` on.
unfoldable pub split_loop : ℕ → List ℕ → ℕ → ℕ → ℕ → Bool → List Visit
split_loop zero d len i start have = last_visit d len start have
split_loop (suc fuel) d len i start have =
    let code = start_code_len d len i in
    let found = nonzero code in
    let rest =
      split_loop fuel d len (if found then i + code else i + 1) (if found then i + code else start)
        (found || have) in
    if not (ltb i len)
    then last_visit d len start have
    else if found && have
    then visit_of d start (i - start) false ∷ rest
    else rest

-- `mezia_split_annexb` with a visitor that is not null.
unfoldable pub split_annexb : List ℕ → ℕ → List Visit
split_annexb d len = split_loop len d len 0 0 false

-- `mezia_rtp_video_timestamp`
unfoldable pub rtp_video_timestamp : ℕ → ℕ
rtp_video_timestamp now_ns = u32 (u64 (now_ns * 90000) / 1000000000)
