-- ===== src/Mem/Access/Refinement.antt =====
-- The memory system of src/base/mem.c, cache and page table together, against a flat memory: a
-- function from addresses to bytes, in which an access takes effect at once or has to wait.
use ch_arm_v5_system_emulato.Base.{
  ℕ, zero, suc, ◌+◌, ◌*◌, ◌%◌, ◌^◌, ◌≤◌, ◌<◌, true, false, List, [], ◌∷◌, Option, some, ◌>>=◌, leb,
  ltb, if◌then◌else◌, add64, sub64, ◌>>>◌, ◌≡◌, inl, inr, refl, ap, ◌∙◌, arith,
}
use ch_arm_v5_system_emulato.Isa.{MemStatus, ready}
use ch_arm_v5_system_emulato.Cache.{Cache}
use ch_arm_v5_system_emulato.Cache.Address.{offset_in-parts}
use ch_arm_v5_system_emulato.Mem.Bytes.{Segments, seg_start, data_seg, is_special_addr}
use ch_arm_v5_system_emulato.Mem.Bytes.LittleEndian.{le_value}
use ch_arm_v5_system_emulato.Mem.Access.{MemSystem, mem_read, mem_write}
use ch_arm_v5_system_emulato.Mem.Access.Coherent.{seen, IsCoherent}
use ch_arm_v5_system_emulato.Mem.Access.Loop.{Inside}
use ch_arm_v5_system_emulato.Mem.Access.Read.{mem_read_cache-seen}
use ch_arm_v5_system_emulato.Mem.Access.Write.{mem_write_cache-seen}

pub data Access : Type 0 where
  load : ℕ → ℕ → Access
  store : ℕ → ℕ → ℕ → Access

pub data Response : Type 0 where
  wait : Response
  loaded : ℕ → Response
  stored : Response

-- The result of an access that has reached a state of the data memory.
abbrev pub respond : MemStatus → Response → Response
respond ready response = response
respond _ response = wait

-- One access, by `_mem_read` or `_mem_write`.
unfoldable pub run : Access → MemSystem → Option (Response × MemSystem)
run (load addr width) mem = do
  (value, mem') ← mem_read addr width mem
  some (respond mem'.dmem_status (loaded value), mem')
run (store addr value width) mem = do
  (code, mem') ← mem_write addr value width mem
  some (respond mem'.dmem_status stored, mem')

-- Accesses in a row.
unfoldable pub run_all : List Access → MemSystem → Option (List Response × MemSystem)
run_all [] mem = some ([], mem)
run_all (access ∷ accesses) mem = do
  (response, mem') ← run access mem
  (responses, mem'') ← run_all accesses mem'
  some (response ∷ responses, mem'')

-- The eight bytes of a value put at an address.
abbrev pub stored_at : (ℕ → ℕ) → ℕ → ℕ → ℕ → ℕ
stored_at byte addr value x =
    if ltb (sub64 x addr) 8 then value >>> (8 * sub64 x addr) % 256 else byte x

-- What an access does to a flat memory.
pub data FlatStep (byte : ℕ → ℕ) : Access → Response → (ℕ → ℕ) → Type 0 where
  waits : {access : Access} → FlatStep byte access wait byte
  loads : {addr width : ℕ} → FlatStep byte (load addr width) (loaded (le_value byte addr 8)) byte
  stores :
      {addr value width : ℕ}
      → FlatStep byte (store addr value width) stored (stored_at byte addr value)

pub data FlatSteps : (ℕ → ℕ) → List Access → List Response → (ℕ → ℕ) → Type 0 where
  done : {byte : ℕ → ℕ} → FlatSteps byte [] [] byte
  step :
      {access : Access} {response : Response} {byte byte' byte'' : ℕ → ℕ} {accesses : List Access}
      {responses : List Response}
      → FlatStep byte access response byte'
      → FlatSteps byte' accesses responses byte''
      → FlatSteps byte (access ∷ accesses) (response ∷ responses) byte''

-- A range that goes to the data cache and of which a word lies in one block of `2 ^ b` bytes.
pub record IsCached (segments : Segments) (b addr width : ℕ) : Type 0 where
  pub ordinary : is_special_addr addr ≡ false
  pub data_address : leb (seg_start segments data_seg) addr ≡ true
  pub small : addr < 2 ^ 64
  pub block : addr % 2 ^ b + 8 ≤ 2 ^ b
  pub some_bytes : 1 ≤ width
  pub word : width ≤ 8

abbrev pub Allowed : Segments → ℕ → Access → Type 0
Allowed segments b (load addr width) = IsCached segments b addr width
Allowed segments b (store addr value width) = IsCached segments b addr width

pub data AllAllowed (segments : Segments) (b : ℕ) : List Access → Type 0 where
  none_left : AllAllowed segments b []
  allow :
      {access : Access} {accesses : List Access}
      → Allowed segments b access
      → AllAllowed segments b accesses
      → AllAllowed segments b (access ∷ accesses)

-- The memory system shows the bytes of a flat memory.
pub record Shows (segments : Segments) (b s : ℕ) (byte : ℕ → ℕ) (mem : MemSystem) : Type 0 where
  pub cache : Cache
  pub cached : mem.cache ≡ some cache
  pub coherent : IsCoherent cache mem.ptable b s
  pub segments_same : mem.segments ≡ segments
  pub same : (x : ℕ) → x < 2 ^ 64 → seen cache mem.ptable x ≡ byte x

-- A state that the flat memory can reach as well.
pub record Simulated (segments : Segments) (b s : ℕ) (byte : ℕ → ℕ) (access : Access)
    (mem : MemSystem) : Type 0 where
  pub response : Response
  pub mem' : MemSystem
  pub byte' : ℕ → ℕ
  pub runs : run access mem ≡ some (response, mem')
  pub flat : FlatStep byte access response byte'
  pub shows : Shows segments b s byte' mem'

le_value-same :
    (f g : ℕ → ℕ) (addr n : ℕ)
    → ((x : ℕ) → x < 2 ^ 64 → f x ≡ g x)
    → le_value f addr n ≡ le_value g addr n
le_value-same f g addr zero h = refl
le_value-same f g addr (suc n) h =
    rw (h (add64 addr n) (omega arith), le_value-same f g addr n h) refl

run-load :
    (segments : Segments) (addr left b s : ℕ) (byte : ℕ → ℕ) (mem : MemSystem)
    → Shows segments b s byte mem
    → IsCached segments b addr (suc left)
    → Simulated segments b s byte (load addr (suc left)) mem
unfolding run mem_read
run-load segments addr left b s byte mem h i =
    let inside : Inside h.cache b addr 8 =
      (i.small, rw (offset_in-parts h.cache b s h.coherent.geometry addr) i.block) in
    let r =
      mem_read_cache-seen addr left h.cache mem b s h.coherent inside
        (let w = i.word in omega arith) in
    let start : mem_read addr (suc left) mem ≡ some (r.value, r.mem') =
      let where_data = ap (λ m. leb (seg_start m data_seg) addr) h.segments_same ∙ i.data_address in
      simp (i.ordinary, h.cached, where_data, if◌then◌else◌) r.runs in
    let shows : Shows segments b s byte r.mem' = record {
      cache = r.cache';
      cached = r.kept;
      coherent = r.coherent;
      segments_same = r.segments ∙ h.segments_same;
      same = λ x hx. r.same x ∙ h.same x hx;
    } in
    elim r.status [
      | inl (status, _) ↦ record {
        response = wait;
        mem' = r.mem';
        byte' = byte;
        runs = rw (start, ◌>>=◌, status) refl;
        flat = waits;
        shows = shows;
      }
      | inr (status, value) ↦ record {
        response = loaded (le_value byte addr 8);
        mem' = r.mem';
        byte' = byte;
        runs =
            let result = value ∙ le_value-same (seen h.cache mem.ptable) byte addr 8 h.same in
            rw (start, ◌>>=◌, status, result) refl;
        flat = loads;
        shows = shows;
      }
    ]

run-store :
    (segments : Segments) (addr value left b s : ℕ) (byte : ℕ → ℕ) (mem : MemSystem)
    → Shows segments b s byte mem
    → IsCached segments b addr (suc left)
    → Simulated segments b s byte (store addr value (suc left)) mem
unfolding run mem_write
run-store segments addr value left b s byte mem h i =
    let inside : Inside h.cache b addr 8 =
      (i.small, rw (offset_in-parts h.cache b s h.coherent.geometry addr) i.block) in
    let r =
      mem_write_cache-seen addr value left h.cache mem b s h.coherent inside
        (let w = i.word in omega arith) in
    let start : mem_write addr value (suc left) mem ≡ some (r.code, r.mem') =
      let where_data = ap (λ m. leb (seg_start m data_seg) addr) h.segments_same ∙ i.data_address in
      simp (i.ordinary, h.cached, where_data, if◌then◌else◌) r.runs in
    elim r.status [
      | inl (status, _, _, same) ↦ record {
        response = wait;
        mem' = r.mem';
        byte' = byte;
        runs = rw (start, ◌>>=◌, status) refl;
        flat = waits;
        shows = record {
          cache = r.cache';
          cached = r.kept;
          coherent = r.coherent;
          segments_same = r.segments ∙ h.segments_same;
          same = λ x hx. same x ∙ h.same x hx;
        };
      }
      | inr (status, _, same) ↦ record {
        response = stored;
        mem' = r.mem';
        byte' = stored_at byte addr value;
        runs = rw (start, ◌>>=◌, status) refl;
        flat = stores;
        shows = record {
          cache = r.cache';
          cached = r.kept;
          coherent = r.coherent;
          segments_same = r.segments ∙ h.segments_same;
          same = λ x hx. rw (same x hx, h.same x hx) refl;
        };
      }
    ]

pub run-Simulated :
    (segments : Segments) (b s : ℕ) (byte : ℕ → ℕ) (access : Access) (mem : MemSystem)
    → Shows segments b s byte mem
    → Allowed segments b access
    → Simulated segments b s byte access mem
run-Simulated segments b s byte (load addr zero) mem h i =
    absurd (let w = i.some_bytes in omega arith)
run-Simulated segments b s byte (load addr (suc left)) mem h i =
    run-load segments addr left b s byte mem h i
run-Simulated segments b s byte (store addr value zero) mem h i =
    absurd (let w = i.some_bytes in omega arith)
run-Simulated segments b s byte (store addr value (suc left)) mem h i =
    run-store segments addr value left b s byte mem h i

-- On a memory system whose data cache is coherent and which shows the bytes of a flat memory, any
-- row of loads and stores of 1 to 8 bytes, at ordinary data addresses below 2^64 of which a word
-- lies in one block, runs to its end with responses and a final flat memory that the flat memory
-- allows: each access waits and changes nothing, a load gives the word of the eight bytes from its
-- address on, or a store sets exactly these eight bytes; and the final system shows that flat
-- memory.
pub run_all-FlatSteps :
    (segments : Segments) (b s : ℕ) (byte : ℕ → ℕ) (accesses : List Access) (mem : MemSystem)
    → Shows segments b s byte mem
    → AllAllowed segments b accesses
    → (responses : List Response) × (mem' : MemSystem) × (byte' : ℕ → ℕ) × (run_all accesses mem
        ≡ some (responses, mem'))
      × FlatSteps byte accesses responses byte'
      × Shows segments b s byte' mem'
unfolding run_all
run_all-FlatSteps segments b s byte [] mem h none_left = ([], mem, byte, refl, done, h)
run_all-FlatSteps segments b s byte (access ∷ accesses) mem h (allow i all) =
    let first = run-Simulated segments b s byte access mem h i in
    let (responses, mem'', byte'', runs, flat, shows) =
      run_all-FlatSteps segments b s first.byte' accesses first.mem' first.shows all in
    (
      first.response ∷ responses,
      mem'',
      byte'',
      rw (first.runs, ◌>>=◌, runs) refl,
      step first.flat flat,
      shows,
    )
