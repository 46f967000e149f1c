-- ===== src/Os/Loader.antt =====
-- os/oscore/OSCore.cpp: `loadExecFile` and `processCreate`, on the memory management unit.
-- A file is the list of its bytes, or none where it does not exist. A read behind the end of the
-- file leaves the rest as it was.
use ferry_os.Prelude.{
  ℕ, zero, suc, ◌+◌, ◌-◌, ◌*◌, ◌^◌, Bool, true, false, not, ◌&&◌, ◌||◌, Option, none, some, List,
  [], ◌∷◌, ltb, ◌==◌, if◌then◌else◌, length, get_or,
}
use ferry_os.Prelude.Words.{u32, add32, sub32}
use ferry_os.Config.{Config}
use ferry_os.Bytes.{int_bytes, int_of_bytes}
use ferry_os.Machine.{Core, with_pcb}
use ferry_os.Device.Processor.Decode.{instr_len}
use ferry_os.Device.Mmu.ProcessTable.{get_stack_base_address}
use ferry_os.Device.Mmu.State.{Mmu, Step, return, ◌>>=◌, ◌>>◌, get_process}
use ferry_os.Device.Mmu.Access.{read_half_word, write, put_bytes, first_bytes, rest_bytes}
use ferry_os.Device.Mmu.Processes.{alloc_process}
use ferry_os.Os.Pcb.{Pcb, State, set_stack_base, set_stack_top}
use ferry_os.Os.Pcb
use ferry_os.Os.PcbManager.{Err, get_free_pcb, return_pcb}
use ferry_os.Os.Scheduler.{add_ready_pcb}

-- The error codes of loading.
pub data LoadErr : Type 0 where
  load_ok file_io invalid_fse invalid_version : LoadErr

-- `readFile` into a buffer.
abbrev read_file : List ℕ → ℕ → ℕ → List ℕ → List ℕ
read_file file size start buffer = put_bytes buffer 0 (first_bytes size (rest_bytes start file))

abbrev pub int_at : List ℕ → ℕ → ℕ
int_at bytes i =
    int_of_bytes (get_or bytes i 0) (get_or bytes (i + 1) 0) (get_or bytes (i + 2) 0)
      (get_or bytes (i + 3) 0)

abbrev short_at : List ℕ → ℕ → ℕ
short_at bytes i = get_or bytes i 0 + 256 * get_or bytes (i + 1) 0

-- `readFile` into an int that has an old value.
abbrev file_int : List ℕ → ℕ → ℕ → ℕ
file_int file start old = int_at (read_file file 4 start (int_bytes old)) 0

-- `ExecFileHeader`, 20 bytes in the file.
pub record ExecFileHeader : Type 0 where
  pub version_major : ℕ
  pub version_minor : ℕ
  pub header_stack_size : ℕ
  pub global_data_size : ℕ
  pub main_func_index : ℕ

abbrev pub header_of : List ℕ → ExecFileHeader
header_of bytes = record {
  version_major = short_at bytes 4;
  version_minor = short_at bytes 6;
  header_stack_size = int_at bytes 8;
  global_data_size = int_at bytes 12;
  main_func_index = int_at bytes 16;
}

-- `strstr`: whether the text stands somewhere in the string.
abbrev starts_with : List ℕ → List ℕ → Bool
starts_with [] string = true
starts_with (c ∷ text) [] = false
starts_with (c ∷ text) (d ∷ string) = c == d && starts_with text string

abbrev pub contains : List ℕ → List ℕ → Bool
contains text [] = starts_with text []
contains text (d ∷ string) = starts_with text (d ∷ string) || contains text string

-- Where the file is read and the memory written, the last length that was read, and the buffer.
pub record Cursor : Type 0 where
  pub file_index : ℕ
  pub mem_index : ℕ
  pub entry_len : ℕ
  pub buffer : List ℕ

-- The result of a write to the memory is not looked at.
abbrev put : ℕ → List ℕ → ℕ → Step (Unit {0})
put address bytes pid = write address bytes pid >>= λ (_ : Bool). return tt

-- A block of the file goes through the buffer to the memory; it must fit the buffer.
unfoldable pub copy_block : List ℕ → ℕ → ℕ → ℕ → Cursor → Step Cursor
copy_block file pid base size c m =
    let filled = read_file file size c.file_index c.buffer in
    if ltb (length c.buffer) size
    then none
    else (put (add32 base c.mem_index) (first_bytes size filled) pid
          >> return (record c {
            file_index = add32 c.file_index size;
            mem_index = add32 c.mem_index size;
            buffer = filled;
          }))
        m

-- The number of entries of a table, which goes on in the file behind it.
abbrev read_count : List ℕ → Cursor → ℕ × Cursor
read_count file c = (file_int file c.file_index 0, record c { file_index = add32 c.file_index 4 })

-- The loops over the strings and over the names of system calls: a length, and as many bytes.
unfoldable pub copy_entries : ℕ → List ℕ → ℕ → ℕ → Cursor → Step Cursor
copy_entries zero file pid base c m = some (c, m)
copy_entries (suc count) file pid base c m =
    let len = file_int file c.file_index c.entry_len in
    (put (add32 base c.mem_index) (int_bytes len) pid
        >> copy_block file pid base len (record c {
          file_index = add32 c.file_index 4;
          mem_index = add32 c.mem_index 4;
          entry_len = len;
        })
        >>= λ (next : Cursor). copy_entries count file pid base next)
      m

-- The starts of the segments, and the cursor behind them.
pub record Segments : Type 0 where
  pub code_seg : ℕ
  pub string_seg : ℕ
  pub func_seg : ℕ
  pub api_seg : ℕ
  pub last : Cursor

-- What the variables of `loadExecFile` that have no first value hold before they are read into.
pub record Found : Type 0 where
  pub found_header : List ℕ
  pub found_buffer : List ℕ
  pub found_string_len : ℕ
  pub found_api_len : ℕ

unfoldable pub copy_segments : List ℕ → ℕ → ℕ → Found → Step Segments
copy_segments file pid base found =
    let (instr_num, start) = read_count file (record {
      file_index = 20;
      mem_index = 0;
      entry_len = found.found_string_len;
      buffer = found.found_buffer;
    }) in
    copy_block file pid base (u32 (instr_num * instr_len)) start >>= λ (code : Cursor).
    (let (string_num, strings) = read_count file code in
      copy_entries string_num file pid base strings >>= λ (text : Cursor).
      (let (func_num, funcs) = read_count file text in
        copy_block file pid base (u32 (func_num * 8)) funcs >>= λ (table : Cursor).
        (let (api_num, apis) = read_count file table in
          copy_entries api_num file pid base (record apis { entry_len = found.found_api_len })
          >>= λ (names : Cursor). return (record {
            code_seg = base;
            string_seg = add32 base code.mem_index;
            func_seg = add32 base text.mem_index;
            api_seg = add32 base table.mem_index;
            last = names;
          }))))

-- The words that are pushed below the frame of the main function, and the top of the stack then.
unfoldable pub push_words : List ℕ → ℕ → ℕ → ℕ → Step ℕ
push_words [] pid ss sp = return sp
push_words (w ∷ words) pid ss sp =
    put (sub32 (add32 ss sp) 3) (int_bytes w) pid >> push_words words pid ss (sub32 sp 4)

-- The first context of a process, in the order in which `reloadContext` pops it from its end.
unfoldable pub first_context : Segments → ℕ → ℕ → ℕ → List ℕ
first_context s frame_size bp entry =
    frame_size
    ∷ 0
    ∷ 0
    ∷ 0
    ∷ 0
    ∷ s.code_seg
    ∷ s.string_seg
    ∷ s.func_seg
    ∷ s.api_seg
    ∷ bp
    ∷ u32 (entry * instr_len)
    ∷ []

-- The part of `loadExecFile` behind the initialisation of the block: the stack. The empty word goes
-- behind the segments, where the source writes it, and not to the stack.
unfoldable pub build_stack : Segments → ℕ → ℕ → ℕ → ℕ → Pcb → Step Pcb
build_stack s pid base stack_size main_func_index p m = elim (get_process pid m) [
  | none ↦ none
  | some table ↦
      let top = get_stack_base_address m.page_bit table in
      let ss = u32 (top + 2 ^ 64 - stack_size + 1) in
      let bp = sub32 stack_size 4 in
      let func = add32 s.func_seg (u32 (main_func_index * 8)) in
      (read_half_word pid (add32 func 4) >>= λ (frame_size : ℕ).
      read_half_word pid func >>= λ (entry : ℕ).
      put (add32 base s.last.mem_index) (int_bytes 0) pid
      >> push_words (first_context s frame_size bp entry) pid ss
          (sub32 (sub32 (sub32 stack_size 1) 4) frame_size)
      >>= λ (sp : ℕ). return (set_stack_top sp (set_stack_base ss p)))
        m
]

unfoldable pub load_segments : List ℕ → List ℕ → ℕ → ℕ → ℕ → Found → Pcb → Step Pcb
load_segments path file base stack_size main_func_index found p =
    copy_segments file p.pid base found >>= λ (s : Segments). λ m.
      elim (Pcb.init path (length path) (add32 base s.last.mem_index) stack_size 0 State.ready p) [
        | none ↦ none
        | some q ↦ build_stack s p.pid base stack_size main_func_index q m
      ]

unfoldable pub load_exec_file :
    Config → List ℕ → List ℕ → Option (List ℕ) → ℕ → Found → Pcb → Step (LoadErr × Pcb)
load_exec_file cfg ext path exe base found p m =
    if not (contains ext path) then some ((invalid_fse, p), m) else elim exe [
      | none ↦ some ((file_io, p), m)
      | some file ↦
          let header = header_of (read_file file 20 0 found.found_header) in
          let stack_size =
            (if header.header_stack_size == 0
              then u32 (cfg.default_stack_page * 2 ^ cfg.default_page_bit)
              else header.header_stack_size) in
          if header.version_major == 0 && header.version_minor == 1
          then (load_segments path file base stack_size header.main_func_index found p
                >>= λ (q : Pcb). return (load_ok, q))
              m
          else some ((invalid_version, p), m)
    ]

-- What `processCreate` returns: the pid, or the error for which it returns -1.
pub data Created : Type 0 where
  created_pid : ℕ → Created
  no_block : Err → Created
  not_loaded : LoadErr → Created

abbrev with_loaded : ℕ → LoadErr → Pcb → Core → Created × Core
with_loaded i load_ok p c =
    let d = with_pcb (λ _. p) i c in
    (created_pid p.pid, record d { scheduler = add_ready_pcb i d.scheduler })
with_loaded i err p c =
    let d = with_pcb (λ _. p) i c in
    (not_loaded err, record d { pcb_manager = return_pcb i d.pcb_manager })

-- The part of `processCreate` behind `getFreePCB`. What `allocProcess` returns is not looked at, and
-- a process that is not loaded gives its block back but not its memory.
unfoldable pub create_in :
    Config
    → List ℕ
    → List ℕ
    → Option (List ℕ)
    → Found
    → ℕ
    → Core
    → Mmu
    → Option (Created × Core × Mmu)
create_in cfg ext path exe found i c m =
    let p = c.pcb_manager.pcbs i in
    elim (alloc_process p.pid exe cfg.default_process_page cfg.default_stack_page m) [
      | none ↦ none
      | some (_, n) ↦ elim (load_exec_file cfg ext path exe 0 found p n) [
        | none ↦ none
        | some ((err, q), o) ↦ (let (created, d) = with_loaded i err q c in some (created, d, o))
      ]
    ]

unfoldable pub process_create :
    Config → List ℕ → List ℕ → Option (List ℕ) → Found → Core → Mmu → Option (Created × Core × Mmu)
process_create cfg ext path exe found c m = elim (get_free_pcb cfg.maximum_tasks c.pcb_manager) [
  | none ↦ none
  | some (manager, none, err) ↦ some (no_block err, record c { pcb_manager = manager }, m)
  | some (manager, some i, err) ↦
      create_in cfg ext path exe found i (record c { pcb_manager = manager }) m
]
