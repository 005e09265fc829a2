-- ===== src/FileTable/Access/Pieces.antt =====
-- Reading an open file in pieces.
use k210_os.Prelude.{
  ℕ, zero, suc, ◌+◌, ◌-◌, ◌^◌, ◌<◌, ◌≤◌, ◌≡◌, refl, ap, ◌∙◌, min, Bool, true, false, List, ◌++◌,
  arith, ◌==◌, if◌then◌else◌, eq→==, length, Outcome, ok, ◌>>=◌, Yields, Yields->>=,
}
use k210_os.Fat32.Sector.{Disk}
use k210_os.Fat32.{Volume, u32}
use k210_os.Fat32.Table.{IsMounted}
use k210_os.Fat32.Entry.{Dirent, is_directory, eread}
use k210_os.Fat32.Entry.Content.{IsFile, HasRead, file_bytes, file_bytes-append, eread-HasRead}
use k210_os.FileTable.{File, fd_entry}
use k210_os.FileTable.Access.{Answer, returned, Objects, Devsw, put_dirent, read_entry, fileread}

-- An open file that can be read, of a file on the volume.
pub record IsOpen {S : Type 0} (fat : Volume) (f : File) (o : Objects S) : Type 0 where
  pub type : f.type ≡ fd_entry
  pub readable : f.readable ≡ true
  pub file : IsFile fat o.disk (o.entries f.ep)
  pub plain : is_directory (o.entries f.ep) ≡ false
  pub inside : f.off ≤ (o.entries f.ep).file_size

-- What a read of `n` bytes comes to where `k` of them are left: the bytes, and an offset behind
-- them.
pub record Advanced {S : Type 0} (fat : Volume) (f : File) (o : Objects S) (k : ℕ)
    (r : Answer (List ℕ) × File × Objects S) : Type 0 where
  pub bytes : r.0 ≡ returned (file_bytes fat o.disk (o.entries f.ep).first_clus f.off k)
  pub same_file : r.1 ≡ record f { off = f.off + k }
  pub is_open : IsOpen fat r.1 r.2
  pub same_disk : (r.2).disk ≡ o.disk
  pub same_start : ((r.2).entries f.ep).first_clus ≡ (o.entries f.ep).first_clus
  pub same_size : ((r.2).entries f.ep).file_size ≡ (o.entries f.ep).file_size

module _ (fat : Volume) (d : Disk) (first : ℕ) where
  length-file_bytes : (off n : ℕ) → length (file_bytes fat d first off n) ≡ n
  unfolding file_bytes
  length-file_bytes off zero = refl
  length-file_bytes off (suc n) = ap suc (length-file_bytes (off + 1) n)

module _ {S : Type 0} (fat : Volume) where
  -- What the entry at `f.ep` and the offset come to, from what eread has brought.
  HasRead-Advanced :
      (f : File) (o : Objects S) (k : ℕ) (r : List ℕ × Dirent × Disk)
      → IsOpen fat f o
      → f.off + k ≤ (o.entries f.ep).file_size
      → HasRead fat o.disk (o.entries f.ep) f.off k r
      → Advanced fat f o k
          (returned r.0, record f { off = u32 (f.off + length r.0) }, put_dirent o f.ep r.1 r.2)
  HasRead-Advanced f o k r p le h =
      let count : length r.0 ≡ k =
        ap length h.bytes ∙ length-file_bytes fat o.disk (o.entries f.ep).first_clus f.off k in
      let off' : u32 (f.off + length r.0) ≡ f.off + k = omega (arith, count, p.file.word, le) in
      let e' : (if f.ep == f.ep then r.1 else o.entries f.ep) ≡ r.1 =
        ap (λ b. if b then r.1 else o.entries f.ep) (eq→== f.ep f.ep refl) in
      let size : (r.1).file_size ≡ (o.entries f.ep).file_size = ap (λ e. e.file_size) h.same_file in
      let kind : (r.1).attribute ≡ (o.entries f.ep).attribute = ap (λ e. e.attribute) h.same_file in
      record {
        bytes = ap returned h.bytes;
        same_file = ap (λ x. record f { off = x }) off';
        is_open = record {
          type = p.type;
          readable = p.readable;
          file = simp (e', h.same_disk) h.file;
          plain = simp (e', kind) p.plain;
          inside = simp (e', off', size) le;
        };
        same_disk = h.same_disk;
        same_start = simp e' (ap (λ e. e.first_clus) h.same_file);
        same_size = simp e' size;
      }

module _ {S : Type 0} (fat : Volume) (devsw : List (Devsw S)) (pid : ℕ) (killed : Bool)
    (copyout : ℕ → ℕ → Bool) where
  fileread-read_entry :
      (f : File) (o : Objects S) (address n : ℕ)
      → f.type ≡ fd_entry
      → f.readable ≡ true
      → fileread fat devsw pid killed copyout f address n o ≡ read_entry fat copyout f address n o
  unfolding fileread
  fileread-read_entry f o address n t r = simp (r, t) refl

  pub fileread-Advanced :
      (f : File) (o : Objects S) (address n : ℕ)
      → IsMounted fat
      → ((a m : ℕ) → copyout a m ≡ true)
      → IsOpen fat f o
      → f.off + n < 2 ^ 32
      → Yields
          (Advanced fat f o (min n ((o.entries f.ep).file_size - f.off)))
          (fileread fat devsw pid killed copyout f address n o)
  unfolding read_entry
  fileread-Advanced f o address n v c p w =
      let e : Dirent = o.entries f.ep in
      let k : ℕ = min n (e.file_size - f.off) in
      rw (fileread-read_entry f o address n p.type p.readable) (
        Yields->>= (HasRead fat o.disk e f.off k) (Advanced fat f o k)
          (eread fat copyout e address f.off n o.disk)
          (λ r.
            ok (
              returned r.0,
              record f { off = u32 (f.off + length r.0) },
              put_dirent o f.ep r.1 r.2,
            ))
          (eread-HasRead copyout fat o.disk e address f.off n v c p.file p.plain p.inside w)
          (λ r h. HasRead-Advanced fat f o k r p (omega (arith, p.inside)) h))

  -- a fileread of `m` bytes to one address, and then one of `n` bytes to another
  unfoldable pub fileread_twice :
      File
      → ℕ
      → ℕ
      → ℕ
      → ℕ
      → Objects S
      → Outcome ((Answer (List ℕ) × Answer (List ℕ)) × File × Objects S)
  fileread_twice f address m address' n o = do
    r ← fileread fat devsw pid killed copyout f address m o
    r' ← fileread fat devsw pid killed copyout r.1 address' n r.2
    ok ((r.0, r'.0), r'.1, r'.2)

-- What two reads come to where `k` of the bytes asked for are left.
pub record InPieces {S : Type 0} (fat : Volume) (f : File) (o : Objects S) (k : ℕ)
    (r : (Answer (List ℕ) × Answer (List ℕ)) × File × Objects S) : Type 0 where
  pub part : List ℕ
  pub rest : List ℕ
  pub answers : r.0 ≡ (returned part, returned rest)
  pub joined : part ++ rest ≡ file_bytes fat o.disk (o.entries f.ep).first_clus f.off k
  pub offset : r.1 ≡ record f { off = f.off + k }
  pub same_disk : (r.2).disk ≡ o.disk

-- Two advances in a row, where the second has what is left behind the first.
Advanced-InPieces :
    {S : Type 0} (fat : Volume) (f : File) (o : Objects S) (m n : ℕ)
    (r r' : Answer (List ℕ) × File × Objects S)
    → f.off ≤ (o.entries f.ep).file_size
    → Advanced fat f o (min m ((o.entries f.ep).file_size - f.off)) r
    → Advanced fat r.1 r.2 (min n (((r.2).entries (r.1).ep).file_size - (r.1).off)) r'
    → InPieces fat f o (min (m + n) ((o.entries f.ep).file_size - f.off)) ((r.0, r'.0), r'.1, r'.2)
Advanced-InPieces {S} fat f o m n r r' le h h' =
    let size : ℕ = (o.entries f.ep).file_size in
    let first : ℕ = (o.entries f.ep).first_clus in
    let k : ℕ = min m (size - f.off) in
    let k' : ℕ = min n (((r.2).entries (r.1).ep).file_size - (r.1).off) in
    let ep' : (r.1).ep ≡ f.ep = ap (λ x. x.ep) h.same_file in
    let off' : (r.1).off ≡ f.off + k = ap (λ x. x.off) h.same_file in
    let size' : ((r.2).entries (r.1).ep).file_size ≡ size =
      ap (λ a. ((r.2).entries a).file_size) ep' ∙ h.same_size in
    let first' : ((r.2).entries (r.1).ep).first_clus ≡ first =
      ap (λ a. ((r.2).entries a).first_clus) ep' ∙ h.same_start in
    let all : min (m + n) (size - f.off) ≡ k + k' = omega (arith, off', size', le) in
    let there : file_bytes fat (r.2).disk ((r.2).entries (r.1).ep).first_clus (r.1).off k'
        ≡ file_bytes fat o.disk first (f.off + k) k' =
      ap (λ d. file_bytes fat d ((r.2).entries (r.1).ep).first_clus (r.1).off k') h.same_disk
      ∙ (ap (λ c. file_bytes fat o.disk c (r.1).off k') first'
          ∙ ap (λ x. file_bytes fat o.disk first x k') off') in
    record {
      part = file_bytes fat o.disk first f.off k;
      rest = file_bytes fat o.disk first (f.off + k) k';
      answers =
          ap (λ x. (x, r'.0)) h.bytes
          ∙ ap (λ x. (returned (file_bytes fat o.disk first f.off k), x))
              (h'.bytes ∙ ap returned there);
      joined = file_bytes-append fat o.disk first f.off k k' (min (m + n) (size - f.off)) all;
      offset =
          h'.same_file
          ∙ (ap {A = File} {B = File} (λ x. record x { off = (r.1).off + k' }) h.same_file
              ∙ ap {A = ℕ} {B = File} (λ i. record f { off = i }) (omega (arith, off', all)));
      same_disk = h'.same_disk ∙ h.same_disk;
    }

-- Two reads of an open file on a mounted volume, of any two lengths and to any addresses, return
-- pieces which joined are the bytes of the file from its offset on, as many as the two ask for
-- together or as the file still has; the offset ends behind them and the disk is as it was. The
-- copies to the caller have to succeed, and the last offset asked for to fit 32 bits.
pub fileread_twice-InPieces :
    {S : Type 0} (fat : Volume) (devsw : List (Devsw S)) (pid : ℕ) (killed : Bool)
    (copyout : ℕ → ℕ → Bool) (f : File) (address m address' n : ℕ) (o : Objects S)
    → IsMounted fat
    → ((a k : ℕ) → copyout a k ≡ true)
    → IsOpen fat f o
    → f.off + m + n < 2 ^ 32
    → Yields
        (InPieces fat f o (min (m + n) ((o.entries f.ep).file_size - f.off)))
        (fileread_twice fat devsw pid killed copyout f address m address' n o)
unfolding fileread_twice
fileread_twice-InPieces {S} fat devsw pid killed copyout f address m address' n o v c p w =
    let size : ℕ = (o.entries f.ep).file_size in
    let k : ℕ = min m (size - f.off) in
    Yields->>= (Advanced fat f o k) (InPieces fat f o (min (m + n) (size - f.off)))
      (fileread fat devsw pid killed copyout f address m o)
      (λ r. fileread fat devsw pid killed copyout r.1 address' n r.2 >>= λ r'.
        ok ((r.0, r'.0), r'.1, r'.2))
      (fileread-Advanced fat devsw pid killed copyout f o address m v c p (omega arith))
      (λ r h.
        let off' : (r.1).off ≡ f.off + k = ap (λ x. x.off) h.same_file in
        let k' : ℕ = min n (((r.2).entries (r.1).ep).file_size - (r.1).off) in
        Yields->>= (Advanced fat r.1 r.2 k') (InPieces fat f o (min (m + n) (size - f.off)))
          (fileread fat devsw pid killed copyout r.1 address' n r.2)
          (λ r'. ok ((r.0, r'.0), r'.1, r'.2))
          (fileread-Advanced fat devsw pid killed copyout r.1 r.2 address' n v c h.is_open
            (omega (arith, off')))
          (λ r' h'. Advanced-InPieces fat f o m n r r' p.inside h h'))
