-- ===== src/Ftp/Gate/Data.antt =====
-- What the programs of Ftp/Data keep.
use mini_ftpd.Prelude.{ℕ, List, [], ◌∷◌}
use mini_ftpd.Text.Bytes.{Bytes}
use mini_ftpd.Ftp.Proc.{Fd, Call, Machine, call}
use mini_ftpd.Ftp.Data.{
  handle_port, handle_pasv, reset_data_fd, receive_data_fd, nobody_result, connect_active,
  accept_passive, establish_transfer, refuse_transfer, send_lines, listing, handle_list,
  handle_nlst,
}
use mini_ftpd.Ftp.Keeps.{Keeps, OfLog, Keeps-pure, Keeps-bind, Keeps-call, step_rules}

module _ {P : Machine → Type 0} (l : OfLog P) where
  pub Keeps-handle_port : (memory : List ℕ) → Keeps P (handle_port memory)
  unfolding handle_port
  Keeps-handle_port memory = search step_rules depth 20

  pub Keeps-handle_pasv : (memory : List ℕ) → Keeps P (handle_pasv memory)
  unfolding handle_pasv
  Keeps-handle_pasv memory = search step_rules depth 20

  pub Keeps-reset_data_fd : Keeps P reset_data_fd
  unfolding reset_data_fd
  Keeps-reset_data_fd = search step_rules depth 20

  Keeps-receive_data_fd : Keeps P receive_data_fd
  unfolding receive_data_fd
  Keeps-receive_data_fd = search step_rules depth 20

  Keeps-nobody_result : Keeps P nobody_result
  unfolding nobody_result
  Keeps-nobody_result = search (step_rules, Keeps-receive_data_fd) depth 20

  Keeps-connect_active : Keeps P connect_active
  unfolding connect_active
  Keeps-connect_active = search (step_rules, Keeps-nobody_result) depth 20

  Keeps-accept_passive : Keeps P accept_passive
  unfolding accept_passive
  Keeps-accept_passive = search (step_rules, Keeps-nobody_result) depth 20

  pub Keeps-establish_transfer : Keeps P establish_transfer
  unfolding establish_transfer
  Keeps-establish_transfer =
      search (step_rules, Keeps-connect_active, Keeps-accept_passive) depth 20

  pub Keeps-refuse_transfer : Keeps P refuse_transfer
  unfolding refuse_transfer
  Keeps-refuse_transfer = search (step_rules, Keeps-reset_data_fd) depth 20

  Keeps-send_lines : (fd : Fd) (lines : List Bytes) → Keeps P (send_lines fd lines)
  unfolding send_lines
  Keeps-send_lines fd [] = Keeps-pure tt
  Keeps-send_lines fd (line ∷ lines) =
      Keeps-bind (call (Call.write_n fd line)) (λ _. send_lines fd lines)
        (Keeps-call l (Call.write_n fd line)) (λ _. Keeps-send_lines fd lines)

  Keeps-listing : (c : Call) → Keeps P (listing c)
  unfolding listing
  Keeps-listing c =
      search
        (
          step_rules, Keeps-reset_data_fd, Keeps-establish_transfer, Keeps-refuse_transfer,
          Keeps-send_lines,
        )
        depth 20

  pub Keeps-handle_list : Keeps P handle_list
  unfolding handle_list
  Keeps-handle_list = search (step_rules, Keeps-listing) depth 20

  pub Keeps-handle_nlst : Keeps P handle_nlst
  unfolding handle_nlst
  Keeps-handle_nlst = search (step_rules, Keeps-listing) depth 20
