-- ===== src/Flv/Metadata.antt =====
-- What flvWriter puts in place of the values of the script tag: the duration with each packet, and
-- the size of the file in the end.
use rtsp_server.Base.{
  ℕ, ◌+◌, ◌≤◌, ◌≡◌, sym, ap, subst, ◌∙◌, length, take, drop, store, window, arith,
}
use rtsp_server.File.Handler.{Handler, Origin, handler, is_read, write_file, seek, current_file}
use rtsp_server.File.Handler.Writing.{IsWritable, write_file_lem, seek_writer, current_writer}
use rtsp_server.Flv.Format.{fast_htonll}
use rtsp_server.Flv.Writer.{Writer, update_duration, update_file_size}

-- The file after eight bytes are put at a position, the writer then being at `at`.
pub record IsPatched (h : Handler) (pos value at : ℕ) (h' : Handler) : Type 0 where
  pub front : take pos h'.content ≡ take pos h.content
  pub patch : window h'.content pos 8 ≡ store 8 value
  pub back : drop (pos + 8) h'.content ≡ drop (pos + 8) h.content
  pub place : h'.cur_file ≡ at
  pub same_mode : h'.mode ≡ h.mode

patch_lem :
    (h : Handler) (pos value : ℕ)
    → IsWritable h
    → pos ≤ length h.content
    → IsPatched h pos value
        (pos + 8)
        (handler (write_file (store 8 value) (handler (seek pos Origin.seek_set h))))
unfolding handler
patch_lem h pos value writable fits =
    let sought = record h { cur_file = pos } in
    let ready : IsWritable sought = record {
      writes = writable.writes;
      is_open = writable.is_open;
      inside = fits;
    } in
    let (h', e, front, patch, back, place, mode, still_open) =
      write_file_lem sought (store 8 value) ready in
    subst (IsPatched h pos value (pos + 8))
      (sym (
        ap (λ r. handler (write_file (store 8 value) (handler r)))
          (seek_writer h pos Origin.seek_set writable.writes)
        ∙ ap handler e))
      (record { front = front; patch = patch; back = back; place = place; same_mode = mode })

-- A file open for writing, the position of the duration within it: updateDuration puts the
-- eight bytes of the duration there, the highest first, leaves all other bytes, and is back where
-- it was.
pub update_duration_lem :
    (w : Writer) (time_duration : ℕ)
    → IsWritable w.file
    → w.duration_pos ≤ length w.file.content
    → IsPatched w.file w.duration_pos
        (fast_htonll time_duration)
        w.file.cur_file
        (update_duration time_duration w).file
unfolding update_duration handler
update_duration_lem w time_duration writable fits =
    let value = fast_htonll time_duration in
    let patched = patch_lem w.file w.duration_pos value writable fits in
    let written =
      handler (write_file (store 8 value) (handler (seek w.duration_pos Origin.seek_set w.file))) in
    let writes = ap is_read patched.same_mode ∙ writable.writes in
    let cur = current_file w.file in
    subst (IsPatched w.file w.duration_pos value w.file.cur_file)
      (sym (ap handler (seek_writer written cur Origin.seek_set writes)))
      (record {
        front = patched.front;
        patch = patched.patch;
        back = patched.back;
        place = current_writer w.file writable.writes;
        same_mode = patched.same_mode;
      })

-- A file open for writing, the position of the size within it: what updateFileSize puts there is
-- the size 0, whatever the size of the file; all other bytes stay.
pub update_file_size_lem :
    (of_int : ℕ → ℕ) (w : Writer)
    → IsWritable w.file
    → w.file_size_pos ≤ length w.file.content
    → IsPatched w.file w.file_size_pos
        (fast_htonll (of_int 0))
        (w.file_size_pos + 8)
        (update_file_size of_int w).file
unfolding update_file_size handler
update_file_size_lem of_int w writable fits =
    let start : Handler = record w.file { cur_file = 0 } in
    let pos = w.file_size_pos in
    let value = fast_htonll (of_int 0) in
    let ready : IsWritable start = record {
      writes = writable.writes;
      is_open = writable.is_open;
      inside = omega arith;
    } in
    let sized = λ (h : Handler) (size : ℕ).
      handler
        (write_file (store 8 (fast_htonll (of_int size))) (handler (seek pos Origin.seek_set h))) in
    let sought = ap handler (seek_writer w.file 0 Origin.seek_end writable.writes) in
    let patched = patch_lem start pos value ready fits in
    subst (IsPatched w.file pos value (pos + 8))
      (sym (
        ap (λ h. sized h (current_file h)) sought
        ∙ ap (sized start) (current_writer start writable.writes)))
      (record {
        front = patched.front;
        patch = patched.patch;
        back = patched.back;
        place = patched.place;
        same_mode = patched.same_mode;
      })
