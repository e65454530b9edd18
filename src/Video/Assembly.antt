-- ===== src/Video/Assembly.antt =====
-- How the receiver of src/video/video.c puts a NAL unit together from its fragments.
use libmezia.Prelude.{
  ℕ, ◌+◌, ◌-◌, ◌≤◌, ◌≡◌, refl, sym, ap, ◌∙◌, List, ◌++◌, none, some, true, false, ltb, arith, u64,
  length, take, drop, copy_at, take-copy_at_behind, take-add, take-length, length-take, length-drop,
}
use libmezia.Types.{Status, Packet}
use libmezia.Video.{Video}
use libmezia.Video.Receiver.{append_fragment}
use libmezia.Video.Receive.{IsValid, recount-IsValid, grown-IsValid}

-- The first `offset` bytes of a NAL unit are put together, without a gap.
pub record Holds (v : Video) (nal : List ℕ) (offset timestamp : ℕ) : Type 0 where
  pub valid : IsValid v
  pub running : v.reassembling ≡ true
  pub whole : v.discontinuity ≡ false
  pub reached : v.reassembly_len ≡ offset
  pub prefix : take offset v.reassembly ≡ take offset nal
  pub same_time : v.reassembly_timestamp ≡ timestamp
  pub inside : offset ≤ length nal
  pub room : length nal ≤ v.config.max_nal_size

-- The bytes of the buffer after the next `n` bytes of the NAL unit are copied in.
grown :
    (v : Video) (nal : List ℕ) (offset timestamp n : ℕ)
    → Holds v nal offset timestamp
    → offset + n ≤ length nal
    → take (offset + n) (copy_at v.reassembly v.reassembly_len (take n (drop offset nal)))
      ≡ take (offset + n) nal
grown v nal offset timestamp n h le = rw (h.reached) (
    rw size at (
      take-copy_at_behind v.reassembly offset (take n (drop offset nal))
        (omega (arith, size, h.valid.size, h.room)))
    ∙ ap (λ t. t ++ take n (drop offset nal)) h.prefix
    ∙ sym (take-add offset n nal))
  where
    size : length (take n (drop offset nal)) ≡ n
    size = omega (arith, length-take n (drop offset nal), length-drop offset nal)

-- The content of a packet is the next `n` bytes of the NAL unit.
pub record Carries (p : Packet) (content nal : List ℕ) (offset n : ℕ) : Type 0 where
  pub len : p.len ≡ n + 2
  pub inside : offset + n ≤ length nal
  pub same : take n content ≡ take n (drop offset nal)

fits :
    (v : Video) (p : Packet) (content nal : List ℕ) (offset timestamp n : ℕ)
    → Holds v nal offset timestamp
    → Carries p content nal offset n
    → ltb v.config.max_nal_size (u64 (v.reassembly_len + (p.len - 2))) ≡ false
fits v p content nal offset timestamp n h c =
    ground (arith, h.reached, h.room, h.valid.addressable, c.len, c.inside)

size_after :
    (v : Video) (p : Packet) (content nal : List ℕ) (offset timestamp n : ℕ)
    → Holds v nal offset timestamp
    → Carries p content nal offset n
    → u64 (v.reassembly_len + (p.len - 2)) ≡ offset + n
size_after v p content nal offset timestamp n h c =
    omega (arith, h.reached, h.room, h.valid.addressable, c.len, c.inside)

-- A fragment that is not the last one takes what is put together on by its content.
pub append-Holds :
    (v : Video) (p : Packet) (content nal : List ℕ) (offset timestamp n : ℕ)
    → Holds v nal offset timestamp
    → Carries p content nal offset n
    → let (status, v', delivery) = append_fragment v p content false in
      (status ≡ Status.ok) × Holds v' nal (offset + n) timestamp × (delivery ≡ none)
unfolding append_fragment
append-Holds v p content nal offset timestamp n h c =
    let bytes : p.len - 2 ≡ n = omega (arith, c.len) in
    rw (fits v p content nal offset timestamp n h c) (
      refl,
      record {
        valid =
            recount-IsValid _ _ (refl, refl, refl, refl)
              (grown-IsValid v (p.len - 2) (take (p.len - 2) content)
                (omega (arith, c.len, c.inside, h.reached, h.room)) h.valid);
        running = h.running;
        whole = h.whole;
        reached = size_after v p content nal offset timestamp n h c;
        prefix = rw (bytes, c.same) (grown v nal offset timestamp n h c.inside);
        same_time = h.same_time;
        inside = c.inside;
        room = h.room;
      },
      refl,
    )

-- The last fragment delivers the NAL unit.
pub append-delivers :
    (v : Video) (p : Packet) (content nal : List ℕ) (offset timestamp n : ℕ)
    → v.config.on_nal ≡ true
    → Holds v nal offset timestamp
    → Carries p content nal offset n
    → offset + n ≡ length nal
    → let (status, v', delivery) = append_fragment v p content true in
      (status ≡ Status.ok)
      × (delivery
          ≡ some (record {
            nal = nal;
            timestamp = p.timestamp;
            end_of_access_unit = p.marker;
            discontinuity = false;
          }))
unfolding append_fragment
append-delivers v p content nal offset timestamp n listening h c end =
    let bytes : p.len - 2 ≡ n = omega (arith, c.len) in
    rw (fits v p content nal offset timestamp n h c) (
      refl,
      rw
          (
            listening,
            h.whole,
            size_after v p content nal offset timestamp n h c,
            bytes,
            c.same,
            grown v nal offset timestamp n h c.inside,
            end,
            take-length nal (length nal) (omega arith),
          )
          refl,
    )
