-- ===== src/Libc/Assert.antt =====
-- lib/libc/src/assert.c.
use os_tk.Base.{codes}
use os_tk.Drivers.Console.{set_position}
use os_tk.Drivers.Display.{clear_color}
use os_tk.Libc.Stdio.{World, puts, printf}

-- `_assert`, up to its endless loop.
pub assert_failed : World → World
assert_failed w =
    let red = record w {
      console = record w.console { display = clear_color 0xFF0000 w.console.display };
    } in
    let placed = record red { console = set_position 0 0 red.console } in
    (printf (puts (codes "==== ASSERTION ====") placed)).1
