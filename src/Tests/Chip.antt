-- ===== src/Tests/Chip.antt =====
-- A simulated Ethernet chip, and that it is as the driver of src/enc28j60.c expects.
use avr_net_enc28j.Base.{
  ℕ, zero, suc, ◌+◌, ◌-◌, ◌*◌, ◌/◌, ◌%◌, ◌<◌, ◌≤◌, ◌≡◌, refl, ◌∙◌, ap, Bool, true, false, ◌&&◌,
  arith, Mem, ltb, leb, ◌==◌, if◌then◌else◌,
}
use avr_net_enc28j.Enc28j60.{Spi, send_bytes}
use avr_net_enc28j.Enc28j60.Chip.{IsChip, kept_byte}
use avr_net_enc28j.Enc28j60.Packets.{pair}
use avr_net_enc28j.Enc28j60.Reads.{position, reading, IsReadable}

-- The bank, the registers but the write pointer, the memory, the packets received, the command under
-- way, and the byte to be read.
pub record Sim : Type 0 where
  pub bank : ℕ
  pub registers : ℕ → ℕ → ℕ
  pub pointer : ℕ
  pub memory : Mem
  pub fresh : Bool
  pub code : ℕ
  pub count : ℕ
  pub out : ℕ

abbrev pub register : Sim → ℕ → ℕ → ℕ
register c b n =
    if b == 0 && n == 2
    then c.pointer % 256
    else if b == 0 && n == 3
    then c.pointer / 256
    else c.registers b n

abbrev write : ℕ → ℕ → Sim → Sim
write a v c = record c {
  registers = λ b n. if b == c.bank && n == a then kept_byte b n v else c.registers b n;
  pointer =
      if c.bank == 0 && a == 2
      then c.pointer / 256 * 256 + v
      else if c.bank == 0 && a == 3
      then c.pointer % 256 + v % 32 * 256
      else c.pointer;
}

-- The read pointer, and where it goes.
abbrev read_pointer : Sim → ℕ
read_pointer c = pair c.registers 0 0

abbrev moved : Sim → ℕ
moved c =
    if read_pointer c == pair c.registers 0 10
    then pair c.registers 0 8
    else (read_pointer c + 1) % 8192

-- A byte is read from the memory.
abbrev fetch : Sim → Sim
fetch c = record c {
  out = c.memory (read_pointer c);
  registers = λ b n.
      if b == 0 && n == 0
      then moved c % 256
      else if b == 0 && n == 1
      then moved c / 256
      else c.registers b n;
}

-- The byte behind a command's first.
abbrev obey : ℕ → Sim → Sim
obey v c =
    if c.code == 0x7A
    then record c {
      memory = λ i. if i == c.pointer then v else c.memory i;
      pointer = (c.pointer + 1) % 8192;
    }
    else if c.code == 0x3A
    then fetch c
    else if c.code == 0x19
    then record c { out = if c.bank == 1 then c.count else 0 }
    else if c.code == 0x9E
    then record c { count = if v == 0x40 then c.count - 1 else c.count }
    else if c.code == 0xFF
    then record c { bank = 0 }
    else if c.code == 0xBF
    then record c { bank = if v == 3 then 0 else c.bank }
    else if c.code == 0x9F
    then record c { bank = if c.bank == 0 && ltb v 4 then v else c.bank }
    else if leb 0x40 c.code && ltb c.code 0x5B
    then write (c.code - 0x40) v c
    else c

abbrev pub spi : Spi Sim
spi = record {
  activate = λ c. record c { fresh = true };
  release = λ c. c;
  exchange = λ v c. if c.fresh then record c { fresh = false; code = v } else obey v c;
  spdr = λ c. c.out;
  set_up = λ c. c;
}

obey-write :
    (a v : ℕ) (c : Sim)
    → a < 27
    → obey v (record c { fresh = false; code = 0x40 + a })
      ≡ write a v (record c { fresh = false; code = 0x40 + a })
obey-write a v c h = ground arith

write_lem :
    (a v : ℕ) (c : Sim) (b n : ℕ)
    → v < 256
    → register (write a v c) b n
      ≡ (if b == c.bank && n == a then kept_byte b n v else register c b n)
write_lem a v c b n h = ground arith

-- In the middle of a burst.
abbrev bursting : ℕ → ℕ → ℕ → (ℕ → ℕ → ℕ) → ℕ → Mem → Sim
bursting count out bank registers pointer memory = record {
  count = count;
  out = out;
  bank = bank;
  registers = registers;
  pointer = pointer;
  memory = memory;
  fresh = false;
  code = 0x7A;
}

burst_rest :
    (b : Mem) (n i count out bank : ℕ) (registers : ℕ → ℕ → ℕ) (pointer : ℕ) (memory : Mem)
    → let c = send_bytes spi b n i (bursting count out bank registers pointer memory) in
      (c.bank ≡ bank)
      × (c.registers ≡ registers)
      × (pointer + n < 8192 → c.pointer ≡ pointer + n)
      × (pointer + n ≤ 8192
          → (j : ℕ)
          → c.memory j
            ≡ (if leb pointer j && ltb j (pointer + n) then b (i + (j - pointer)) else memory j))
unfolding send_bytes
burst_rest b zero i count out bank registers pointer memory =
    (refl, refl, λ h. omega arith, λ h j. ground arith)
burst_rest b (suc n) i count out bank registers pointer memory =
    let memory' = λ (j : ℕ). if j == pointer then b i else memory j in
    let (same_bank, same_registers, at, now) =
      burst_rest b n (i + 1) count out bank registers ((pointer + 1) % 8192) memory' in
    (
      same_bank,
      same_registers,
      λ h. omega (arith, at (omega arith)),
      λ h j. ground (arith, now (omega arith) j),
    )

pub spi-IsChip : IsChip spi (λ c. c.bank) register (λ c. c.memory)
spi-IsChip = record {
  write_selected = λ a v c h. ground arith;
  write_register = λ a v c b n h byte held.
      ap (λ c'. register c' b n) (obey-write a v c h)
      ∙ write_lem a v (record c { fresh = false; code = 0x40 + a }) b n byte;
  write_memory = λ a v c i h. ground arith;
  reset_selected = λ c. refl;
  clear_selected = λ c. refl;
  clear_register = λ v c b n h. refl;
  clear_memory = λ v c i. refl;
  set_selected = λ v c h k. ground arith;
  set_register = λ v c b n h. refl;
  set_memory = λ v c i. refl;
  burst_selected =
      λ b n c. (burst_rest b n 0 c.count c.out c.bank c.registers c.pointer c.memory).0;
  burst_memory = λ b n c i bytes fits. ground (
    arith,
    (burst_rest b n 0 c.count c.out c.bank c.registers c.pointer c.memory).3 (omega arith) i,
  );
  burst_pointer = λ b n c fits. omega (
    arith,
    (burst_rest b n 0 c.count c.out c.bank c.registers c.pointer c.memory).2 (omega arith),
  );
  burst_register = λ b n c k low high.
      let same = (burst_rest b n 0 c.count c.out c.bank c.registers c.pointer c.memory).1 in
      rw same (ground arith);
}

-- In the middle of a read of the memory.
record IsReading (c : Sim) (n : ℕ) (s : Sim) : Type 0 where
  pub fresh : s.fresh ≡ false
  pub code : s.code ≡ 0x3A
  pub bank : s.bank ≡ c.bank
  pub memory : s.memory ≡ c.memory
  pub count : s.count ≡ c.count
  pub pointer : s.pointer ≡ c.pointer
  pub registers : (k : ℕ) → 2 ≤ k → s.registers 0 k ≡ c.registers 0 k
  pub at :
      read_pointer s
      ≡ position (pair c.registers 0 8) (pair c.registers 0 10) (pair c.registers 0 0) n

exchange-fetch : (s : Sim) → s.fresh ≡ false → s.code ≡ 0x3A → spi.exchange 0 s ≡ fetch s
exchange-fetch s fresh code = ground arith

moved_pair : (s : Sim) → read_pointer (fetch s) ≡ moved s
moved_pair s = omega arith

reading-IsReading : (n : ℕ) (c : Sim) → IsReading c n (reading spi n c)
unfolding reading position
reading-IsReading zero c = record {
  fresh = refl;
  code = refl;
  bank = refl;
  memory = refl;
  count = refl;
  pointer = refl;
  registers = λ k lo. refl;
  at = refl;
}
reading-IsReading (suc n) c =
    let r = reading-IsReading n c in
    let s = reading spi n c in
    let start : pair s.registers 0 8 ≡ pair c.registers 0 8 =
      omega (arith, r.registers 8 (omega arith), r.registers 9 (omega arith)) in
    let end : pair s.registers 0 10 ≡ pair c.registers 0 10 =
      omega (arith, r.registers 10 (omega arith), r.registers 11 (omega arith)) in
    rw (exchange-fetch s r.fresh r.code) (record {
      fresh = r.fresh;
      code = r.code;
      bank = r.bank;
      memory = r.memory;
      count = r.count;
      pointer = r.pointer;
      registers = λ k lo. ground (arith, r.registers k lo);
      at = moved_pair s ∙ rw (r.at, start, end) refl;
    })

pub spi-IsReadable : IsReadable spi (λ c. c.bank) register (λ c. c.memory) (λ c. c.count)
unfolding position reading
spi-IsReadable = record {
  release_byte = λ c. refl;
  read_byte = λ n c.
      let r = reading-IsReading n c in
      ap (λ (t : Sim). t.out) (exchange-fetch (reading spi n c) r.fresh r.code)
      ∙ (λ i. r.memory i (r.at i));
  read_pointer = λ n c. (reading-IsReading n c).at;
  read_register =
      λ n c k lo hi. let r = reading-IsReading n c in ground (arith, r.registers k lo, r.pointer);
  read_memory = λ n c i. ap (λ (m : Mem). m i) (reading-IsReading n c).memory;
  read_selected = λ n c. (reading-IsReading n c).bank;
  read_pending = λ n c. (reading-IsReading n c).count;
  count_byte = λ c one. rw one refl;
  count_register = λ c b n held. refl;
  count_memory = λ c i. refl;
  count_selected = λ c. refl;
  count_pending = λ c. refl;
  done_pending = λ c. refl;
  done_register = λ c k small. refl;
  done_selected = λ c. refl;
  write_pending = λ a v c small. ground arith;
  clear_pending = λ v c. refl;
  set_pending = λ v c. refl;
}
