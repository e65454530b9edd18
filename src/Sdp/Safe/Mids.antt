-- ===== src/Sdp/Safe/Mids.antt =====
-- The mids that `parse_bundle` of src/sdp/sdp.c notes stay inside their array.
use libmezia.Prelude.{
  ℕ, zero, suc, ◌∙◌, List, Bool, true, false, ◌==◌, leb, if◌then◌else◌, if_cases, length,
  length-set, arith, Option,
}
use libmezia.Text.{read_while, skip_while, space_char, is_empty}
use libmezia.Sdp.{Sdp, max_mid, max_mids}
use libmezia.Sdp.Parser.Attributes.{keep_token, parse_bundle, bundle_loop, put_mid, not_space}
use libmezia.Sdp.Bounds.{Fits, MediaIsInside, TokensFit, MidsFit, IsInside, All-set}

put_mid-MidsFit :
    (room : ℕ) (sdp : Sdp) (token : List ℕ)
    → Fits 16 token
    → MidsFit (suc room) sdp
    → MidsFit room (put_mid sdp token)
put_mid-MidsFit room sdp token fits v = record {
  mids = All-set (Fits 16) sdp.bundle_mids sdp.bundle_mid_count token fits v.mids;
  array = length-set sdp.bundle_mids sdp.bundle_mid_count token ∙ v.array;
  count = omega (arith, v.count);
}

-- A description of which the mids still have room.
record HasRoom (room : ℕ) (s : Sdp) : Type 0 where
  tokens : TokensFit s
  mids : MidsFit room s
  audio : MediaIsInside s.audio
  video : MediaIsInside s.video

less_room : (room : ℕ) (sdp : Sdp) → HasRoom room sdp → IsInside sdp
less_room room sdp v = record {
  tokens = v.tokens;
  mids = record { mids = v.mids.mids; array = v.mids.array; count = omega (arith, v.mids.count) };
  audio = v.audio;
  video = v.video;
}

next_mid :
    (room : ℕ) (sdp : Sdp) (token : List ℕ)
    → HasRoom (suc room) sdp
    → Fits 16 token
    → HasRoom room (put_mid sdp token)
next_mid room sdp token v fits = record {
  tokens = record {
    ice_ufrag = v.tokens.ice_ufrag;
    ice_pwd = v.tokens.ice_pwd;
    fingerprint_algo = v.tokens.fingerprint_algo;
    fingerprint = v.tokens.fingerprint;
    setup = v.tokens.setup;
  };
  mids = put_mid-MidsFit room sdp token fits v.mids;
  audio = v.audio;
  video = v.video;
}

bundle_loop-IsInside :
    (room : ℕ) (text : List ℕ) (sdp : Sdp)
    → HasRoom room sdp
    → IsInside (bundle_loop room text sdp).1
unfolding bundle_loop
bundle_loop-IsInside zero text sdp v = less_room 0 sdp v
bundle_loop-IsInside (suc room) text sdp v =
    let P = λ (t : Bool × Sdp). IsInside t.1 in
    let at_mid = skip_while (λ c. c == space_char) text in
    let (mid, behind) = read_while not_space 15 at_mid in
    if_cases P (is_empty at_mid) (λ _. less_room (suc room) sdp v)
      (λ _.
        if_cases
          (λ (o : Option (List ℕ)).
            let (fine, next) = keep_token sdp o (put_mid sdp) in
            IsInside
              (if fine
                then bundle_loop room (skip_while not_space behind) next
                else (false, sdp)).1)
          (leb max_mid (length mid)) (λ _. less_room (suc room) sdp v)
          (λ e.
            bundle_loop-IsInside room (skip_while not_space behind) (put_mid sdp mid)
              (next_mid room sdp mid v (ground arith))))

pub parse_bundle-IsInside :
    (value : List ℕ) (sdp : Sdp) → IsInside sdp → IsInside (parse_bundle value sdp).1
unfolding parse_bundle
parse_bundle-IsInside value sdp v =
    bundle_loop-IsInside max_mids value (record sdp { bundle = true; bundle_mid_count = 0 })
      (record {
        tokens = record {
          ice_ufrag = v.tokens.ice_ufrag;
          ice_pwd = v.tokens.ice_pwd;
          fingerprint_algo = v.tokens.fingerprint_algo;
          fingerprint = v.tokens.fingerprint;
          setup = v.tokens.setup;
        };
        mids = record { mids = v.mids.mids; array = v.mids.array; count = omega arith };
        audio = v.audio;
        video = v.video;
      })
