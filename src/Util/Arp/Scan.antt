-- ===== src/Util/Arp/Scan.antt =====
-- What arp.go finds in a table of the form that the kernel prints.
use mathlib.Core.List.{append-nil, append_assoc}
use gale_lb.Prelude.{
  ℕ, zero, suc, ◌≡◌, ◌≢◌, refl, sym, ap, ◌∙◌, List, [], ◌∷◌, ◌++◌, map, some, false, ◌&&◌,
  replicate, if◌then◌else◌, All, arith, Result, ok, err,
}
use gale_lb.Prelude.Equality.{◌==◌, bytes_eq, bytes_beq, eq_iff}
use gale_lb.Prelude.Text.{Str, codes}
use gale_lb.Util.Arp.{
  ArpError, not_found, is_space, flush, fields_from, fields, scan, get_mac_from_arp_cache,
}

-- A word: a text of at least one byte, without white space.
abbrev pub IsWord : Str → Type 0
IsWord w = (w ≢ []) × All (λ c. is_space c ≡ false) w

-- The words of a line, with blanks behind each.
abbrev pub print_line : List (Str × ℕ) → Str
print_line [] = []
print_line ((w, blanks) ∷ rest) = w ++ ((b' ' ∷ replicate blanks b' ') ++ print_line rest)

flush-word : (w : Str) (words : List Str) → w ≢ [] → flush w words ≡ w ∷ words
unfolding flush
flush-word [] words ne = absurd (ne refl)
flush-word (c ∷ w) words ne = refl

fields_from-word :
    (word w s : Str)
    → All (λ c. is_space c ≡ false) w
    → fields_from word (w ++ s) ≡ fields_from (word ++ w) s
unfolding fields_from
fields_from-word word [] s h = ap (λ x. fields_from x s) (sym (append-nil word))
fields_from-word word (c ∷ w) s (no_space, h) =
    rw (fields_from, no_space) (fields_from-word (word ++ c ∷ []) w s h)
    ∙ ap (λ x. fields_from x s) (append_assoc word (c ∷ []) w)

fields_from-blanks :
    (blanks : ℕ) (s : Str) → fields_from [] (replicate blanks b' ' ++ s) ≡ fields_from [] s
unfolding fields_from
fields_from-blanks zero s = refl
fields_from-blanks (suc n) s = fields_from-blanks n s

-- The words of a printed line are read back.
fields-print_line :
    (ws : List (Str × ℕ)) → All (λ w. IsWord w.0) ws → fields (print_line ws) ≡ map (λ w. w.0) ws
unfolding fields fields_from
fields-print_line [] h = refl
fields-print_line ((w, blanks) ∷ rest) ((ne, no_space), h) =
    fields_from-word [] w ((b' ' ∷ replicate blanks b' ') ++ print_line rest) no_space
    ∙ flush-word w (fields_from [] (replicate blanks b' ' ++ print_line rest)) ne
    ∙ ap (λ x. w ∷ x) (fields_from-blanks blanks (print_line rest) ∙ fields-print_line rest h)

-- One entry of the ARP cache, as the kernel prints it: the address, the type of the hardware, the flags,
-- the hardware's address, a mask and the device. The numbers are those of the blanks between them.
pub record Entry : Type 0 where
  pub ip : Str
  pub hw_type : Str
  pub flags : Str
  pub mac : Str
  pub mask : Str
  pub device : Str
  pub blanks : ℕ × ℕ × ℕ × ℕ × ℕ × ℕ

abbrev pub words_of : Entry → List (Str × ℕ)
words_of e =
    let (b0, b1, b2, b3, b4, b5) = e.blanks in
    (e.ip, b0) ∷ (e.hw_type, b1) ∷ (e.flags, b2) ∷ (e.mac, b3) ∷ (e.mask, b4) ∷ (e.device, b5) ∷ []

-- The MAC address of the first entry with this address and this device.
abbrev pub first_mac : Str → Str → List Entry → Result ArpError Str
first_mac ip iface_name [] = err (not_found ip iface_name)
first_mac ip iface_name (e ∷ es) =
    let rest = first_mac ip iface_name es in
    if (e.ip == ip) && (e.device == iface_name) then ok e.mac else rest

scan-print_line :
    (ip iface_name : Str) (es : List Entry)
    → All (λ e. All (λ w. IsWord w.0) (words_of e)) es
    → scan ip iface_name (map (λ e. print_line (words_of e)) es) ≡ first_mac ip iface_name es
unfolding scan bytes_beq
scan-print_line ip iface_name [] h = unfold scan in refl
scan-print_line ip iface_name (e ∷ es) (good, h) =
    rw (scan, fields-print_line (words_of e) good, scan-print_line ip iface_name es h) refl

-- The first line of the table.
abbrev pub header : Str
header = codes "IP address       HW type     Flags       HW address            Mask     Device"

fields-header :
    fields header
    ≡ codes "IP"
      ∷ codes "address"
      ∷ codes "HW"
      ∷ codes "type"
      ∷ codes "Flags"
      ∷ codes "HW"
      ∷ codes "address"
      ∷ codes "Mask"
      ∷ codes "Device"
      ∷ []
unfolding fields
fields-header = refl

scan-header :
    (ip iface_name : Str) (lines : List Str)
    → ip ≢ codes "IP"
    → scan ip iface_name (header ∷ lines) ≡ scan ip iface_name lines
unfolding scan
scan-header ip iface_name lines other = ground (arith, fields-header, eq_iff (codes "IP") ip, other)

-- For an address other than "IP", in a table with the header and any entries of six words each,
-- with any number of blanks behind each word: the MAC address of the first entry with this address
-- and device is found, and without such an entry there is an error. The flags do not matter, so the
-- entry may be one that the kernel has not completed.
pub get_mac_from_arp_cache-first_mac :
    (ip iface_name : Str) (es : List Entry)
    → ip ≢ codes "IP"
    → All (λ e. All (λ w. IsWord w.0) (words_of e)) es
    → get_mac_from_arp_cache (some (header ∷ map (λ e. print_line (words_of e)) es)) ip iface_name
      ≡ first_mac ip iface_name es
unfolding get_mac_from_arp_cache
get_mac_from_arp_cache-first_mac ip iface_name es other good =
    scan-header ip iface_name (map (λ e. print_line (words_of e)) es) other
    ∙ scan-print_line ip iface_name es good
