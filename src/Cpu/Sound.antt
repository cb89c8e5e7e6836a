-- ===== src/Cpu/Sound.antt =====
-- The states of the machine of code/machine that the simulator may be in, and what keeps them so.
use os_td_minf.Prelude.{
  ℕ, ◌^◌, ◌<◌, ◌≡◌, refl, ap, ◌≢◌, ◌∙◌, Option, none, some, ◌>>=◌, List, arith, lt→ltb,
}
use os_td_minf.Machine.Reg
use os_td_minf.Machine.{
  Machine, ExceptionType, TranslationEntry, reg, set_reg, delayed_load, raise_exception,
}
use os_td_minf.Machine.Bounds.{Paged}
use os_td_minf.Machine.Tlb.{Tlbed}

-- There is a page table or a TLB, and not both.
pub data HasMmu (m : Machine) : Type 0 where
  by_pages : (table : List TranslationEntry) → Paged m table → HasMmu m
  by_tlb : (tlb : List TranslationEntry) → Tlbed m tlb → HasMmu m

-- Registers are words, bytes are bytes, and a pending load is to a general register.
pub record IsSound (m : Machine) : Type 0 where
  pub words : (i : ℕ) → reg m i < 2 ^ 32
  pub load : reg m Reg.load < 32
  pub bytes : (a : ℕ) → m.main_memory a < 256
  pub mmu : HasMmu m

-- A machine between two instructions.
pub record IsReady (m : Machine) : Type 0 where
  pub sound : IsSound m
  pub zero_reg : reg m 0 ≡ 0

pub HasMmu-same :
    (m m' : Machine)
    → m'.tlb ≡ m.tlb
    → m'.page_table ≡ m.page_table
    → m'.page_table_size ≡ m.page_table_size
    → HasMmu m
    → HasMmu m'
HasMmu-same m m' e f g (by_pages table p) =
    by_pages table (record { no_tlb = e ∙ p.no_tlb; is_table = f ∙ p.is_table; room = rw g p.room })
HasMmu-same m m' e f g (by_tlb tlb t) =
    by_tlb tlb (record { no_table = f ∙ t.no_table; is_tlb = e ∙ t.is_tlb; room = t.room })

pub set_reg_self : (m : Machine) (num v : ℕ) → reg (set_reg m num v) num ≡ v
set_reg_self m num v = ground arith

pub set_reg_ne : (m : Machine) (num v j : ℕ) → num ≢ j → reg (set_reg m num v) j ≡ reg m j
set_reg_ne m num v j ne = ground arith

pub set_reg-words :
    (m : Machine) (num v : ℕ)
    → ((i : ℕ) → reg m i < 2 ^ 32)
    → v < 2 ^ 32
    → (i : ℕ) → reg (set_reg m num v) i < 2 ^ 32
set_reg-words m num v words small i = ground (arith, words i)

pub set_reg-IsSound :
    (m : Machine) (num v : ℕ) → num ≢ Reg.load → v < 2 ^ 32 → IsSound m → IsSound (set_reg m num v)
set_reg-IsSound m num v ne small sound = record {
  words = set_reg-words m num v sound.words small;
  load = rw (set_reg_ne m num v Reg.load ne) sound.load;
  bytes = sound.bytes;
  mmu = HasMmu-same m (set_reg m num v) refl refl refl sound.mmu;
}

set_load-IsSound : (m : Machine) (r : ℕ) → r < 32 → IsSound m → IsSound (set_reg m Reg.load r)
set_load-IsSound m r small sound = record {
  words = set_reg-words m Reg.load r sound.words (omega arith);
  load = rw (set_reg_self m Reg.load r) small;
  bytes = sound.bytes;
  mmu = HasMmu-same m (set_reg m Reg.load r) refl refl refl sound.mmu;
}

-- DelayedLoad on a sound machine passes: it makes register 0 zero again, and keeps the program
-- counters.
pub record Delayed (m m' : Machine) : Type 0 where
  pub ready : IsReady m'
  pub pc_kept : reg m' Reg.pc ≡ reg m Reg.pc
  pub next_pc_kept : reg m' Reg.next_pc ≡ reg m Reg.next_pc

pub delayed_load-Delayed :
    (m : Machine) (r v : ℕ)
    → r < 32
    → v < 2 ^ 32
    → IsSound m
    → (m' : Machine) × (delayed_load m r v ≡ some m') × Delayed m m'
unfolding delayed_load
delayed_load-Delayed m r v r_small v_small sound =
    let load_small = sound.load in
    let m₁ = set_reg m (reg m Reg.load) (reg m Reg.load_value) in
    let m₃ = set_reg (set_reg m₁ Reg.load r) Reg.load_value v in
    let sound₁ : IsSound m₁ =
      set_reg-IsSound m (reg m Reg.load) (reg m Reg.load_value) (λ e. omega (arith, e, load_small))
        (sound.words 38) sound in
    let sound₃ : IsSound m₃ =
      set_reg-IsSound (set_reg m₁ Reg.load r) Reg.load_value v (omega arith) v_small
        (set_load-IsSound m₁ r r_small sound₁) in
    simp (lt→ltb (reg m Reg.load) 40 (omega arith)) (
      set_reg m₃ 0 0,
      refl,
      record {
        ready = record {
          sound = set_reg-IsSound m₃ 0 0 (omega arith) (omega arith) sound₃;
          zero_reg = refl;
        };
        pc_kept = ground arith;
        next_pc_kept = ground arith;
      },
    )

-- The machine `k` on which RaiseException calls the handler when an instruction that began on `m`
-- traps: it is valid, and the program counters are still those of the instruction.
pub record Stopped (m k : Machine) : Type 0 where
  pub ready : IsReady k
  pub same_pc : reg k Reg.pc ≡ reg m Reg.pc
  pub same_next_pc : reg k Reg.next_pc ≡ reg m Reg.next_pc

pub Stopped-same : (m m₁ k : Machine) → m₁.registers ≡ m.registers → Stopped m₁ k → Stopped m k
Stopped-same m m₁ k same stopped = record {
  ready = stopped.ready;
  same_pc = stopped.same_pc ∙ ap (λ r. r Reg.pc) same;
  same_next_pc = stopped.same_next_pc ∙ ap (λ r. r Reg.next_pc) same;
}

pub raise_exception-Stopped :
    (handler : ExceptionType → Machine → Option Machine) (e : ExceptionType) (bad : ℕ) (m : Machine)
    → bad < 2 ^ 32
    → IsSound m
    → (k : Machine) × (raise_exception handler e bad m ≡ handler e k) × Stopped m k
unfolding raise_exception
raise_exception-Stopped handler e bad m small sound =
    let marked = set_reg m Reg.bad_vaddr bad in
    let (k, at, d) =
      delayed_load-Delayed marked 0 0 (omega arith) (omega arith)
        (set_reg-IsSound m Reg.bad_vaddr bad (omega arith) small sound) in
    (
      k,
      rw at refl,
      record {
        ready = d.ready;
        same_pc = d.pc_kept ∙ set_reg_ne m Reg.bad_vaddr bad Reg.pc (omega arith);
        same_next_pc = d.next_pc_kept ∙ set_reg_ne m Reg.bad_vaddr bad Reg.next_pc (omega arith);
      },
    )

-- What follows the handler, when it returns at all.
pub after_handler :
    {A B C : Type 0} (o : Option A) (f : A → B) (rest : B → Option C)
    → ((o >>= λ x. some (f x)) >>= rest) ≡ (o >>= λ x. rest (f x))
after_handler none f rest = refl
after_handler (some x) f rest = refl
