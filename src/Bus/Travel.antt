-- ===== src/Bus/Travel.antt =====
-- What arrives of a frame that is sent: src/socket and src/grpc.
use caneo.Common.{
  if_all, ℕ, zero, suc, ◌-◌, ◌%◌, ◌^◌, ◌≤◌, ◌<◌, ◌≡◌, refl, sym, ap, ◌∙◌, Bool, true, false, Option,
  none, some, List, [], ◌∷◌, ◌++◌, arith, ltb, length, take, replicate, any,
}
use caneo.Common.Text.{Text}
use caneo.Common.Int.{ℤ}
use caneo.Common.OrderedMap.{nat_key, text_key, pair_key}
use caneo.Frame.{CanHeader, CanFrame, new_frame}
use caneo.Stream.{to_proto}
use caneo.Bus.{
  Stamps, Received, nothing, runt, complete, eff_mask, smaller, to_raw, chosen, stamp, frame_of,
  read_frame, read_all, to_request, from_proto, handle_send,
}

take-append_of_le :
    {A : Type 0} (n : ℕ) (xs ys : List A) → n ≤ length xs → take n (xs ++ ys) ≡ take n xs
take-append_of_le zero xs ys h = refl
take-append_of_le (suc n) [] ys h = absurd (omega arith)
take-append_of_le (suc n) (x ∷ xs) ys h = ap (◌∷◌ x) (take-append_of_le n xs ys (omega arith))

take-take : {A : Type 0} (n : ℕ) (xs : List A) → take n (take n xs) ≡ take n xs
take-take zero xs = refl
take-take (suc n) [] = refl
take-take (suc n) (x ∷ xs) = ap (◌∷◌ x) (take-take n xs)

length-take : {A : Type 0} (n : ℕ) (xs : List A) → n ≤ length xs → length (take n xs) ≡ n
length-take zero xs h = refl
length-take (suc n) [] h = absurd (omega arith)
length-take (suc n) (x ∷ xs) h = ap suc (length-take n xs (omega arith))

pub take_all : {A : Type 0} (n : ℕ) (xs : List A) → length xs ≤ n → take n xs ≡ xs
take_all zero [] h = refl
take_all zero (x ∷ xs) h = absurd (omega arith)
take_all (suc n) [] h = refl
take_all (suc n) (x ∷ xs) h = ap (◌∷◌ x) (take_all n xs (omega arith))

take-smaller : (xs : List ℕ) → take (smaller (length xs) 8) xs ≡ take 8 xs
take-smaller xs =
    if_all (λ n. take n xs ≡ take 8 xs) (ltb (length xs) 8)
      (λ h. take_all (length xs) xs (omega arith) ∙ sym (take_all 8 xs (ground (arith, h))))
      (λ _. refl)

smaller-le : (a b : ℕ) → smaller a b ≤ a
smaller-le a b = ground arith

-- The time of a frame is all that a time stamp changes.
same_but_time :
    (f : CanFrame) (o : Option ℤ)
    → ((stamp f o).payload ≡ f.payload)
      × ((stamp f o).decoded ≡ f.decoded)
      × ((stamp f o).header ≡ f.header)
unfolding stamp caneo.Frame.set_timestamp
same_but_time f none = (refl, refl, refl)
same_but_time f (some t) = (refl, refl, refl)

-- A frame that SocketCAN sends is read, by any SocketCAN on the bus, with the low 29 bits of its ID and the first
-- eight of its bytes, at the time that the kernel gives for it, else at the time of the reading.
pub frame_of-to_raw :
    (interface : Text) (now : ℤ) (id : ℕ) (bytes : List ℕ) (stamps : Option Stamps)
    → frame_of interface now (to_raw id bytes) stamps
      ≡ stamp
          (new_frame
            (record { id = eff_mask id; interface = interface; dlc = smaller (length bytes) 8 })
            (take 8 bytes)
            now)
          (chosen stamps)
unfolding frame_of to_raw
frame_of-to_raw interface now id bytes stamps =
    let n = smaller (length bytes) 8 in
    let le = smaller-le (length bytes) 8 in
    let e : eff_mask (eff_mask id) ≡ eff_mask id = omega arith in
    let t : take n (take n bytes ++ replicate (8 - n) 0) ≡ take 8 bytes =
      take-append_of_le n (take n bytes) (replicate (8 - n) 0)
        (omega (arith, length-take n bytes le, le))
      ∙ take-take n bytes
      ∙ take-smaller bytes in
    ap
      (λ (p : ℕ × List ℕ).
        stamp (new_frame (record { id = p.0; interface = interface; dlc = n }) p.1 now)
          (chosen stamps))
      (ap (λ i. (i, take n (take n bytes ++ replicate (8 - n) 0))) e ∙ ap (λ l. (eff_mask id, l)) t)

-- What of a frame that SocketCAN reads is as it was sent.
pub read_of_sent :
    (interface : Text) (now : ℤ) (id : ℕ) (bytes : List ℕ) (stamps : Option Stamps)
    → let f = frame_of interface now (to_raw id bytes) stamps in
      (f.payload ≡ take 8 bytes)
      × (f.decoded ≡ [])
      × (f.header.id ≡ eff_mask id)
      × (f.header.interface ≡ interface)
unfolding new_frame
read_of_sent interface now id bytes stamps =
    let new =
      new_frame (record { id = eff_mask id; interface = interface; dlc = smaller (length bytes) 8 })
        (take 8 bytes) now in
    let e = frame_of-to_raw interface now id bytes stamps in
    let k = same_but_time new (chosen stamps) in
    (
      ap (λ (f : CanFrame). f.payload) e ∙ k.0,
      ap (λ (f : CanFrame). f.decoded) e ∙ k.1,
      ap (λ (f : CanFrame). f.header.id) e ∙ ap (λ (h : CanHeader). h.id) k.2,
      ap (λ (f : CanFrame). f.header.interface) e ∙ ap (λ (h : CanHeader). h.interface) k.2,
    )

-- A frame that is sent over the server of another machine arrives on that machine's bus as if SocketCAN had sent
-- it there, and the client is told so, if the server has a function to send with.
pub remote_send :
    (interface : Text) (now : ℤ) (id : ℕ) (bytes : List ℕ) (stamps : Option Stamps)
    → let answer = handle_send true (to_request interface id bytes) in
      (answer ≡ (some (interface, id % 2 ^ 32, bytes), true))
      × (frame_of interface now (to_raw (id % 2 ^ 32) bytes) stamps
          ≡ frame_of interface now (to_raw id bytes) stamps)
unfolding handle_send to_request to_raw
remote_send interface now id bytes stamps = (
  refl,
  ap (λ i. frame_of interface now (record (to_raw 0 bytes) { can_id = i }) stamps)
      (let e : eff_mask (id % 2 ^ 32) ≡ eff_mask id = omega arith in e),
)

-- A client gets every frame that the server's machine reads with its ID, interface, length and bytes, but with
-- the time of its arrival at the client and undecoded.
pub from_proto-to_proto :
    (f : CanFrame) (now now_us : ℤ)
    → f.header.dlc < 2 ^ 8
    → from_proto f.header.interface (to_proto f now_us) now ≡ new_frame f.header f.payload now
unfolding from_proto to_proto new_frame
from_proto-to_proto f now now_us h =
    let e : f.header.dlc % 2 ^ 8 ≡ f.header.dlc = omega (arith, h) in
    ap (λ n. new_frame (record f.header { dlc = n }) f.payload now) e

-- Whether recvmsg had nothing.
abbrev pub is_nothing : Received → Bool
is_nothing nothing = true
is_nothing _ = false

abbrev pub complete_frames : Text → List (ℤ × Received) → List CanFrame
complete_frames interface [] = []
complete_frames interface ((now, complete raw stamps) ∷ rest) =
    frame_of interface now raw stamps ∷ complete_frames interface rest
complete_frames interface (_ ∷ rest) = complete_frames interface rest

-- The reading loop hands over every complete frame up to the first read that has nothing, in the order of the
-- reads, passes over shorter reads, and ends there.
pub read_all_lem :
    (interface : Text) (reads later : List (ℤ × Received)) (now : ℤ)
    → any (λ (r : ℤ × Received). is_nothing r.1) reads ≡ false
    → read_all interface (reads ++ ((now, nothing) ∷ later)) ≡ complete_frames interface reads
unfolding read_all read_frame
read_all_lem interface [] later now h = refl
read_all_lem interface ((t, nothing) ∷ rest) later now h = cc
read_all_lem interface ((t, runt) ∷ rest) later now h = read_all_lem interface rest later now h
read_all_lem interface ((t, complete raw st) ∷ rest) later now h =
    ap (◌∷◌ (frame_of interface t raw st)) (read_all_lem interface rest later now h)
