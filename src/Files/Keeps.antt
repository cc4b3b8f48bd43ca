-- ===== src/Files/Keeps.antt =====
-- What is done to files changes no table.
use wgxdp.Base.{ℕ, ◌≡◌, refl, sym, subst, String, string_eq, Option, none, some, Option-elim}
use wgxdp.World.{World, Db, Host, StoredFile}
use wgxdp.Act.{Act, Outcome, pure, fail, modify}
use wgxdp.Act.Keeps.{Keeps, Keeps-pure, Keeps-fail}
use wgxdp.Sql.Keeps.{sql_rules}
use wgxdp.Files.{
  FileError, found_file, stat, read_file, mkdir_all, create, change_file, chmod, write_string,
  find_file,
}
use wgxdp.Firewall.Keeps.{Tables}

module _ (P : Db → Type 0) where
  pub Keeps-modify :
      {E : Type 0} (f : World → World)
      → ((w : World) → (f w).db ≡ w.db)
      → Keeps (Tables P) (modify {E = E} f)
  unfolding modify
  Keeps-modify f same = record { at = λ env w h. subst (λ db. P db) (sym (same w)) h }

  -- What changes the host alone.
  pub Keeps-host :
      {E : Type 0} (f : World → Host)
      → Keeps (Tables P) (modify {E = E} (λ w. record w { host = f w }))
  Keeps-host f = Keeps-modify (λ w. record w { host = f w }) (λ w. refl)

  pub found_file-Keeps : (path : String) → Keeps (Tables P) (found_file path)
  unfolding found_file
  found_file-Keeps path = record {
    at = λ env w h.
        Option-elim (λ (r : Outcome FileError StoredFile × World). P r.1.db) _ _
          (find_file path w.host.files) h (λ _. h);
  }

  pub stat-Keeps : (path : String) → Keeps (Tables P) (stat path)
  unfolding stat
  stat-Keeps path = search (sql_rules, found_file-Keeps)

  pub read_file-Keeps : (path : String) → Keeps (Tables P) (read_file path)
  unfolding read_file
  read_file-Keeps path = search (sql_rules, stat-Keeps)

  pub change_file-Keeps :
      (path : String) (f : StoredFile → StoredFile)
      → Keeps (Tables P) (modify {E = String} (change_file path f))
  unfolding change_file
  change_file-Keeps path f = Keeps-modify (change_file path f) (λ w.
      Option-elim (λ (v : World). v.db ≡ w.db) _ _ (find_file path w.host.files) refl (λ _. refl))

  pub mkdir_all-Keeps : (dir : String) → Keeps (Tables P) (mkdir_all dir)
  unfolding mkdir_all
  mkdir_all-Keeps dir = search (sql_rules, Keeps-host)

  pub create-Keeps : (path : String) → Keeps (Tables P) (create path)
  unfolding create
  create-Keeps path = search (sql_rules, Keeps-host)

  pub chmod-Keeps : (path : String) (mode : ℕ) → Keeps (Tables P) (chmod path mode)
  unfolding chmod
  chmod-Keeps path mode = search (sql_rules, change_file-Keeps)

  pub write_string-Keeps : (path text : String) → Keeps (Tables P) (write_string path text)
  unfolding write_string
  write_string-Keeps path text = search (sql_rules, change_file-Keeps)

  pub ruleset file_rules = (
    sql_rules, stat-Keeps, read_file-Keeps, mkdir_all-Keeps, create-Keeps, chmod-Keeps,
    write_string-Keeps,
  )

  -- A value that may be missing, and an error for it.
  pub Keeps-some :
      {E A : Type 0} (e : E) (o : Option A)
      → Keeps (Tables P) (elim o as (λ _. Act E A) [ none ↦ fail e | some a ↦ pure a ])
  Keeps-some e o = Option-elim (Keeps (Tables P)) (fail e) pure o (Keeps-fail e) Keeps-pure
