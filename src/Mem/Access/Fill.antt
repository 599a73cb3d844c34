-- ===== src/Mem/Access/Fill.antt =====
-- A miss of the data cache in src/base/mem.c: the block comes in, and no byte that is seen changes.
use native.Mathlib.Nat.{one-le-pow}
use ch_arm_v5_system_emulato.Base.{
  ℕ, ◌+◌, ◌-◌, ◌^◌, ◌<◌, false, ◌&&◌, none, some, ◌>>=◌, if◌then◌else◌, length-take, ◌≡◌, refl, ap,
  ◌∙◌, arith,
}
use ch_arm_v5_system_emulato.Cache.{Cache, Operation, get_set, tag_of, offset_in}
use ch_arm_v5_system_emulato.Cache.Valid.{set_of}
use ch_arm_v5_system_emulato.Cache.Miss.{filled, handle_miss-Filled}
use ch_arm_v5_system_emulato.Cache.Address.{base, base-lt, address, get_set-lt, tag_of-lt}
use ch_arm_v5_system_emulato.Cache.Lines.{At, line_of}
use ch_arm_v5_system_emulato.Mem.Ptable.{PageTable}
use ch_arm_v5_system_emulato.Mem.Bytes.Flat.{byte_at}
use ch_arm_v5_system_emulato.Mem.Access.{MemSystem, read_block, write_block, fill_line}
use ch_arm_v5_system_emulato.Mem.Access.Blocks.{read_block-flat, bytes_small}
use ch_arm_v5_system_emulato.Mem.Access.Coherent.{IsCoherent}
use ch_arm_v5_system_emulato.Mem.Access.Evict.{write_back, get_or-take, get_or-take-lt}
use ch_arm_v5_system_emulato.Mem.Access.Replaced.{Replaced}

-- What `fill_line` leaves: the missing block has replaced a line.
pub record Refilled (operation : Operation) (c : ℕ) (cache : Cache) (mem : MemSystem) (b s : ℕ)
    : Type 0 where
  pub cache' : Cache
  pub ptable' : PageTable
  pub runs :
      fill_line operation c c cache mem
      ≡ some (cache', record mem { ptable = ptable'; inflight = false })
  pub replaced : Replaced cache cache' mem.ptable ptable' b s c

pub fill_line-Refilled :
    (operation : Operation) (c : ℕ) (cache : Cache) (mem : MemSystem) (b s : ℕ)
    → IsCoherent cache mem.ptable b s
    → line_of cache c ≡ none
    → offset_in cache c ≡ 0
    → c < 2 ^ 64
    → Refilled operation c cache mem b s
unfolding fill_line
fill_line-Refilled operation c cache mem b s h miss aligned fits =
    let (old_set, there, size) = set_of cache c h.used in
    let B = cache.block_size in
    let (block, pt1) = read_block mem.segments c 0 B mem.ptable in
    let k = get_set cache c in
    let hk = get_set-lt cache b s h.geometry c in
    let ht = tag_of-lt cache b s h.geometry c fits in
    let pos = one-le-pow b 2 (omega arith) in
    let B' = h.geometry.size in
    let start = address cache b s h.geometry c in
    let top = base-lt cache b s h.geometry k (tag_of cache c) (2 ^ b - 1) ht hk (omega arith) in
    let read = read_block-flat mem.segments c 0 B mem.ptable h.memory (omega arith) in
    let r = handle_miss-Filled cache c operation (some block) old_set h.used there in
    let at : At cache k r.i r.old = record { s = old_set; there = there; at = r.old_there } in
    let back =
      write_back cache b s h.geometry k r.old r.evicted pt1 hk (h.tags k r.i r.old at)
        (h.full k r.i r.old at) (λ o. h.small k r.i o r.old at) r.old_evicted read.3
        (λ valid clean o ho.
          read.2 (base b s k r.old.tag + o) ∙ h.clean k r.i o r.old at valid clean ho) in
    record {
      cache' = r.cache';
      ptable' =
          if r.evicted.valid && r.evicted.dirty
          then write_block r.evicted.block_addr 0 r.evicted.bytes pt1
          else pt1;
      runs = rw (◌>>=◌, r.runs) refl;
      replaced = record {
        i = r.i;
        old_set = old_set;
        new_set = r.s';
        old = r.old;
        line = filled cache c operation (some block);
        aligned = aligned;
        fits = fits;
        miss = miss;
        there = there;
        old_there = r.old_there;
        holds = record { valid = refl; same = refl };
        full = length-take B block ∙ (let n = read.0 in omega arith);
        block = λ o ho.
            get_or-take B o block (omega arith)
            ∙ read.1 o (omega arith)
            ∙ ap (byte_at mem.ptable) {y = c + o} (omega arith);
        small = λ o. get_or-take-lt B o block (
            bytes_small block
              (λ i lt. rw (read.1 i (let n = read.0 in omega arith)) (h.memory.bytes (c + 0 + i))));
        sets = r.sets;
        lines = r.lines;
        assoc = r.assoc;
        block_size = r.block_size;
        capacity = r.capacity;
        back = back.0;
        rest = λ a other. back.1 a other ∙ read.2 a;
        memory = back.2;
      };
    }
