-- ===== src/Sdp/Bounds.antt =====
-- No text makes `mezia_sdp_parse` of src/sdp/sdp.c write outside the arrays of a description.
use libmezia.Prelude.{
  ℕ, zero, suc, ◌+◌, ◌≤◌, ◌<◌, ◌≡◌, ◌∙◌, List, [], ◌∷◌, Bool, leb, ltb, if_cases, length,
  length-set, set, get_or, arith, Option, some, none, All, u8,
}
use libmezia.Text.{codes, strip_prefix, same_text}
use libmezia.Sdp.{Sdp, SdpMedia, Extmap, Direction, no_extmap, copy_token, max_extmap}
use libmezia.Sdp.Parser.Attributes.{
  on, keep_token, media_attribute, parse_rtpmap, put_rtpmap, scan_rtpmap, parse_extmap, put_extmap,
  scan_extmap,
}

-- A text that fits an array with its 0.
abbrev pub Fits : ℕ → List ℕ → Type 0
Fits size text = length text < size

-- A medium inside its arrays.
pub record MediaIsInside (m : SdpMedia) : Type 0 where
  pub mid : Fits 16 m.mid
  pub codec : Fits 16 m.codec
  pub payload_type : m.payload_type < 128
  pub uris : All (λ (e : Extmap). Fits 96 e.uri) m.extmap
  pub array : length m.extmap ≡ 8
  pub count : m.extmap_count ≤ 8

pub record TokensFit (s : Sdp) : Type 0 where
  pub ice_ufrag : Fits 256 s.ice_ufrag
  pub ice_pwd : Fits 256 s.ice_pwd
  pub fingerprint_algo : Fits 16 s.fingerprint_algo
  pub fingerprint : Fits 256 s.fingerprint
  pub setup : Fits 16 s.setup

-- `room` more mids can be noted.
pub record MidsFit (room : ℕ) (s : Sdp) : Type 0 where
  pub mids : All (Fits 16) s.bundle_mids
  pub array : length s.bundle_mids ≡ 4
  pub count : s.bundle_mid_count + room ≤ 4

-- A description inside its arrays.
pub record IsInside (s : Sdp) : Type 0 where
  pub tokens : TokensFit s
  pub mids : MidsFit 0 s
  pub audio : MediaIsInside s.audio
  pub video : MediaIsInside s.video

pub All-set {ℓ κ} :
    {A : Type ℓ} (P : A → Type κ) (xs : List A) (i : ℕ) (v : A)
    → P v
    → All P xs
    → All P (set xs i v)
All-set P [] i v p all = all
All-set P (x ∷ xs) zero v p (q, all) = (p, all)
All-set P (x ∷ xs) (suc i) v p (q, all) = (q, All-set P xs i v p all)

All-get_or {ℓ κ} :
    {A : Type ℓ} (P : A → Type κ) (xs : List A) (i : ℕ) (d : A) → P d → All P xs → P (get_or xs i d)
All-get_or P [] i d p all = p
All-get_or P (x ∷ xs) zero d p (q, all) = q
All-get_or P (x ∷ xs) (suc i) d p (q, all) = All-get_or P xs i d p all

pub on_cases :
    {A : Type 0} (P : A → Type 0) (o : Option (List ℕ)) {f : List ℕ → A} {otherwise : A}
    → ((rest : List ℕ) → P (f rest))
    → P otherwise
    → P (on o f otherwise)
on_cases P none f g = g
on_cases P (some rest) f g = f rest

-- A token is stored only where it fits.
pub keep_token_cases :
    {A : Type 0} (P : A → Type 0) (size : ℕ) (text : List ℕ) {was : A} (put : List ℕ → A)
    → P was
    → (Fits size text → P (put text))
    → P (keep_token was (copy_token size text) put).1
keep_token_cases P size text {was} put old new =
    if_cases (λ (t : Option (List ℕ)). P (keep_token was t put).1) (leb size (length text))
      (λ _. old) (λ e. new (ground arith))

put_rtpmap-IsInside :
    (media : SdpMedia) (o : Option (ℕ × List ℕ × ℕ × ℕ))
    → MediaIsInside media
    → MediaIsInside (put_rtpmap media o).1
put_rtpmap-IsInside media none v = v
put_rtpmap-IsInside media (some (pt, codec, rate, channels)) v =
    if_cases (λ (t : Bool × SdpMedia). MediaIsInside t.1) (ltb 127 pt) (λ _. v)
      (λ e.
        let small : u8 pt < 128 = ground arith in
        keep_token_cases MediaIsInside 16 codec _
          (record {
            mid = v.mid;
            codec = v.codec;
            payload_type = small;
            uris = v.uris;
            array = v.array;
            count = v.count;
          })
          (λ fits. record {
            mid = v.mid;
            codec = fits;
            payload_type = small;
            uris = v.uris;
            array = v.array;
            count = v.count;
          }))

with_extmap :
    (media : SdpMedia) (e : Extmap) (count : ℕ)
    → MediaIsInside media
    → Fits 96 e.uri
    → count ≤ 8
    → MediaIsInside
        (record media { extmap = set media.extmap media.extmap_count e; extmap_count = count })
with_extmap media e count v fits low = record {
  mid = v.mid;
  codec = v.codec;
  payload_type = v.payload_type;
  uris = All-set (λ (x : Extmap). Fits 96 x.uri) media.extmap media.extmap_count e fits v.uris;
  array = length-set media.extmap media.extmap_count e ∙ v.array;
  count = low;
}

put_extmap-IsInside :
    (media : SdpMedia) (o : Option (ℕ × List ℕ))
    → media.extmap_count < 8
    → MediaIsInside media
    → MediaIsInside (put_extmap media o).1
put_extmap-IsInside media none low v = v
put_extmap-IsInside media (some (id, uri)) low v =
    if_cases (λ (t : Bool × SdpMedia). MediaIsInside t.1) (ltb 14 id) (λ _. v)
      (λ _.
        let entry = get_or media.extmap media.extmap_count no_extmap in
        keep_token_cases MediaIsInside 96 uri _
          (with_extmap media (record entry { id = u8 id }) media.extmap_count v
            (All-get_or (λ (x : Extmap). Fits 96 x.uri) media.extmap media.extmap_count no_extmap
              (omega arith) v.uris)
            v.count)
          (λ fits.
            with_extmap media (record { id = u8 id; uri = uri }) (media.extmap_count + 1) v fits
              (omega arith)))

parse_extmap-IsInside :
    (value : List ℕ) (media : SdpMedia)
    → MediaIsInside media
    → MediaIsInside (parse_extmap value media).1
unfolding parse_extmap
parse_extmap-IsInside value media v =
    if_cases (λ (t : Bool × SdpMedia). MediaIsInside t.1) (leb max_extmap media.extmap_count)
      (λ _. v) (λ e. put_extmap-IsInside media (scan_extmap value) (ground arith) v)

pub media_attribute-IsInside :
    (value : List ℕ) (media : SdpMedia)
    → MediaIsInside media
    → MediaIsInside (media_attribute value media).1
unfolding media_attribute parse_rtpmap
media_attribute-IsInside value media v =
    let P = λ (t : Bool × SdpMedia). MediaIsInside t.1 in
    let turned : (d : Direction) → MediaIsInside (record media { direction = d }) = λ d. record {
      mid = v.mid;
      codec = v.codec;
      payload_type = v.payload_type;
      uris = v.uris;
      array = v.array;
      count = v.count;
    } in
    on_cases P (strip_prefix (codes "mid:") value)
      (λ mid. keep_token_cases MediaIsInside 16 mid _ v (λ fits. record {
        mid = fits;
        codec = v.codec;
        payload_type = v.payload_type;
        uris = v.uris;
        array = v.array;
        count = v.count;
      }))
      (if_cases P (same_text value (codes "sendrecv")) (λ _. turned Direction.sendrecv)
        (λ _.
          if_cases P (same_text value (codes "sendonly")) (λ _. turned Direction.sendonly)
            (λ _.
              if_cases P (same_text value (codes "recvonly")) (λ _. turned Direction.recvonly)
                (λ _.
                  if_cases P (same_text value (codes "inactive")) (λ _. turned Direction.inactive)
                    (λ _.
                      if_cases P (same_text value (codes "rtcp-mux"))
                        (λ _. record {
                          mid = v.mid;
                          codec = v.codec;
                          payload_type = v.payload_type;
                          uris = v.uris;
                          array = v.array;
                          count = v.count;
                        })
                        (λ _.
                          on_cases P (strip_prefix (codes "rtpmap:") value)
                            (λ map. put_rtpmap-IsInside media (scan_rtpmap map) v)
                            (on_cases P (strip_prefix (codes "extmap:") value)
                              (λ map. parse_extmap-IsInside map media v)
                              (on_cases P (strip_prefix (codes "rtcp-fb:") value)
                                (λ fb. record {
                                  mid = v.mid;
                                  codec = v.codec;
                                  payload_type = v.payload_type;
                                  uris = v.uris;
                                  array = v.array;
                                  count = v.count;
                                })
                                v))))))))
